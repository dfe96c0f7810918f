-- ===== src/MessageLog/Ends.antt =====
-- message_log.py: when the loop of `read_records` ends.
use ansible_collection_intel.Prelude.{
  ℕ, zero, suc, ◌+◌, ◌<◌, ◌≢◌, inl, inr, sym, ap, ◌∙◌, ℤ, Option, none, List, leb, ◌==◌, Bool-cases,
  Option-cases, none_not_some, arith,
}
use ansible_collection_intel.Errors.{Result, ok, ok_injective, raised_not_ok}
use ansible_collection_intel.Client.{Call, WsmanClient, Action, step_rule}
use ansible_collection_intel.Models.{Python}
use ansible_collection_intel.MessageLog.Decode.{Library}
use ansible_collection_intel.MessageLog.Container.{
  MessageLogProperties, get_log_properties, position_to_first_record,
}
use ansible_collection_intel.MessageLog.Read.{
  Progress, Ended, start_at, Round, break, again, round, go_on, read_loop, read_from, read_records,
}
use ansible_collection_intel.MessageLog.Rounds.{IsProductive, Advances, round-Advances}

module _ (python : Python) (library : Library) (client : WsmanClient) (max_records batch_size : ℕ)
    (productive : IsProductive python client) where
  -- what does not run out of fuel
  abbrev Finishes : {A : Type 0} → Result (Option A) × List Call → Type 0
  Finishes r = r.0 ≢ ok none

  go_on-Finishes :
      (rest : Progress → Action (Option Ended)) (decision : Round) (n : ℕ) (calls : List Call)
      → ((next : Progress) (after : List Call) → n < next.consumed → Finishes (rest next after))
      → Advances n decision
      → Finishes (go_on rest decision calls)
  unfolding go_on
  go_on-Finishes rest (break ended) n calls k h = λ e. none_not_some (sym (ok_injective e))
  go_on-Finishes rest (again next) n calls k h = k next calls h

  read_loop-Finishes :
      (fuel : ℕ) (p : Progress) (calls : List Call)
      → max_records < fuel + p.consumed
      → 0 < fuel
      → Finishes (read_loop python library client max_records batch_size fuel p calls)
  unfolding read_loop
  read_loop-Finishes zero p calls enough h = absurd (omega arith)
  read_loop-Finishes (suc fuel) p calls enough h = elim (Bool-cases (leb max_records p.consumed)) [
    | inl e ↦ rw (e) (λ eq. none_not_some (sym (ok_injective eq)))
    | inr e ↦
        let room : p.consumed < max_records = ground (arith, e) in
        rw (e) (
          step_rule Finishes (round python library client max_records batch_size p) calls _
            (λ raised eq h. raised_not_ok h)
            (λ decision eq.
              go_on-Finishes _ decision p.consumed _
                (λ next after more. read_loop-Finishes fuel next after (omega arith) (omega arith))
                (round-Advances python library client max_records batch_size productive p calls
                  decision room eq)))
  ]

  read_from-Finishes :
      (fuel : ℕ) (properties : MessageLogProperties) (identifier : ℤ) (return_value : ℕ)
      (calls : List Call)
      → max_records < fuel
      → Finishes (
          read_from python library client max_records batch_size fuel properties identifier
            return_value calls)
  unfolding read_from
  read_from-Finishes fuel properties identifier return_value calls enough =
      elim (Bool-cases (return_value == 2)) [
        | inl e ↦ rw (e) (λ eq. none_not_some (sym (ok_injective eq)))
        | inr e ↦
            let loop =
              read_loop python library client max_records batch_size fuel (start_at identifier) in
            rw (e) (
              step_rule Finishes loop calls _ (λ raised eq h. raised_not_ok h)
                (λ left eq. elim (Option-cases left) [
                  | inl stuck ↦ absurd (
                      read_loop-Finishes fuel (start_at identifier) calls (omega arith)
                        (omega arith) (eq ∙ ap ok stuck))
                  | inr ended ↦ rw (ended.1) (λ h. none_not_some (sym (ok_injective h)))
                ]))
      ]

  -- For every firmware that hands out a record with each answer that does not set NoMoreRecords,
  -- and every bound and batch size: the read ends, returning or raising, within max_records + 1
  -- rounds of the loop, and so within any larger number.
  pub read_records-ends :
      (fuel : ℕ) (calls : List Call)
      → max_records < fuel
      → (read_records python library client max_records batch_size fuel calls).0 ≢ ok none
  unfolding read_records
  read_records-ends fuel calls enough =
      step_rule Finishes (get_log_properties client python) calls _ (λ raised eq h. raised_not_ok h)
        (λ properties eq.
          step_rule Finishes (position_to_first_record client python)
            (get_log_properties client python calls).1 _ (λ raised eq h. raised_not_ok h)
            (λ position eq.
              read_from-Finishes fuel properties position.0 position.1
                (position_to_first_record client python
                  (get_log_properties client python calls).1).1
                enough))
