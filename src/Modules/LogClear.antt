-- ===== src/Modules/LogClear.antt =====
-- modules/amt_log_clear.py: `plan` and `main`, behind the construction of the client.
use ansible_collection_intel.Prelude.{
  ℕ, zero, suc, ℤ, pos, negsuc, Bool, true, false, not, ◌&&◌, Option, none, some, if◌then◌else◌,
}
use ansible_collection_intel.Errors.{ok, refuse, invalid_state}
use ansible_collection_intel.Client.{WsmanClient, Action, ◌>>=◌, ◌>>◌, lift}
use ansible_collection_intel.Models.{Python}
use ansible_collection_intel.MessageLog.Container.{get_log_properties, clear_log}

-- `plan`: an unknown count is not an empty log
unfoldable pub plan_clear : Option ℤ → Bool
plan_clear none = true
plan_clear (some (pos zero)) = false
plan_clear (some (pos (suc n))) = true
plan_clear (some (negsuc n)) = false

pub record ClearExit : Type 0 where
  pub changed : Bool
  pub records_before : Option ℤ
  pub records_after : Option ℤ
  pub cleared : Bool
  pub return_value : Option ℕ

module _ (python : Python) (client : WsmanClient) where
  -- clearing, and the count that is read again
  unfoldable pub clear_and_read : Option ℤ → Action ClearExit
  unfolding clear_log get_log_properties
  clear_and_read records_before = clear_log client >>= λ return_value.
      get_log_properties client python >>= λ after. lift (
        ok record {
          changed = true;
          records_before = records_before;
          records_after = after.current_number_of_records;
          cleared = true;
          return_value = some return_value;
        })

  -- nothing sent
  unfoldable pub preview_clear : Option ℤ → Action ClearExit
  unfolding plan_clear
  preview_clear records_before = lift (
      ok record {
        changed = plan_clear records_before;
        records_before = records_before;
        records_after = none;
        cleared = false;
        return_value = none;
      })

  -- behind the first read
  unfoldable pub clear_if_planned : Bool → Option ℤ → Action ClearExit
  unfolding plan_clear clear_and_read preview_clear
  clear_if_planned check_mode records_before =
      if plan_clear records_before && not check_mode
      then clear_and_read records_before
      else preview_clear records_before

  unfoldable pub run_clear : Bool → Bool → Action ClearExit
  unfolding get_log_properties clear_if_planned
  run_clear confirm_destructive check_mode =
      lift (refuse (not confirm_destructive) invalid_state)
      >> (get_log_properties client python >>= λ properties.
          clear_if_planned check_mode properties.current_number_of_records)
