-- ===== src/MessageLog/Balance.antt =====
-- message_log.py: what one round of `read_records` counts, keeps and reports.
use ansible_collection_intel.Prelude.{
  ℕ, suc, ◌+◌, ◌≤◌, ◌≡◌, refl, ℤ, Bool, true, false, Option, none, some, String, List, [], ◌∷◌,
  ◌++◌, length, length-append, length-take, take, All, ◌==◌, int_eq, Bool-cases, inl, inr, arith,
}
use ansible_collection_intel.Client.{Instance}
use ansible_collection_intel.Models.{Python, get_value, truthy, optional_int}
use ansible_collection_intel.MessageLog.Decode.{
  Library, EventRecord, decode_record, is_empty_record_slot,
}
use ansible_collection_intel.MessageLog.Read.{
  StopReason, no_more_records, no_record_exists, no_record_exists_in_log, max_records_reached,
  invalid_record_pointed, no_iteration_identifier, iteration_stalled, Progress, Ended, stop_at,
  Round, break, again, add_record, consume, record_array, add_records, continue_with, take_batch,
  after_get_records,
}

-- Every element taken from the firmware is a record that is kept or an empty slot.
pub record IsOpen (max_records : ℕ) (p : Progress) : Type 0 where
  pub balanced : length p.records + p.empty_slots ≡ p.consumed
  pub bounded : p.consumed ≤ max_records
  pub no_padding : All (λ event. is_empty_record_slot event ≡ false) p.records

-- The reasons by which the firmware says that there is no more.
abbrev pub is_clean : StopReason → Bool
is_clean no_more_records = true
is_clean no_record_exists = true
is_clean no_record_exists_in_log = true
is_clean _ = false

abbrev pub is_bound : StopReason → Bool
is_bound max_records_reached = true
is_bound _ = false

pub record IsAccount (max_records : ℕ) (ended : Ended) : Type 0 where
  pub progress_IsOpen : IsOpen max_records ended.progress
  pub complete_is_clean : ended.complete ≡ is_clean ended.stop_reason
  pub truncated_is_bound : ended.truncated ≡ is_bound ended.stop_reason
  pub truncated_is_full : ended.truncated ≡ true → ended.progress.consumed ≡ max_records

All-append_one {ℓ κ} :
    {A : Type ℓ} (P : A → Type κ) (xs : List A) (x : A) → All P xs → P x → All P (xs ++ x ∷ [])
All-append_one P [] x h p = (p, tt)
All-append_one P (y ∷ xs) x h p = (h.0, All-append_one P xs x h.1 p)

-- A batch in the making: `todo` elements are counted and not yet looked at.
record IsPartial (max_records todo : ℕ) (p : Progress) : Type 0 where
  balanced_with : length p.records + p.empty_slots + todo ≡ p.consumed
  bounded_with : p.consumed ≤ max_records
  no_padding_with : All (λ event. is_empty_record_slot event ≡ false) p.records

module _ (max_records : ℕ) where
  add_record-IsPartial :
      (event : EventRecord) (todo : ℕ) (p : Progress)
      → IsPartial max_records (suc todo) p
      → IsPartial max_records todo (add_record event p)
  unfolding add_record
  add_record-IsPartial event todo p h = elim (Bool-cases (is_empty_record_slot event)) [
    | inl e ↦ rw (e) record {
      balanced_with = omega (arith, h.balanced_with);
      bounded_with = h.bounded_with;
      no_padding_with = h.no_padding_with;
    }
    | inr e ↦ rw (e) record {
      balanced_with = omega (arith, h.balanced_with, length-append p.records (event ∷ []));
      bounded_with = h.bounded_with;
      no_padding_with = All-append_one _ p.records event h.no_padding_with e;
    }
  ]

  -- A round's decision keeps the account.
  abbrev pub RoundOk : Round → Type 0
  RoundOk (break ended) = IsAccount max_records ended
  RoundOk (again p) = IsOpen max_records p

  module _ (python : Python) (library : Library) where
    add_records-IsOpen :
        (items : List String) (p : Progress)
        → IsPartial max_records (length items) p
        → IsOpen max_records (add_records python library items p)
    unfolding add_records
    add_records-IsOpen [] p h = record {
      balanced = omega (arith, h.balanced_with);
      bounded = h.bounded_with;
      no_padding = h.no_padding_with;
    }
    add_records-IsOpen (item ∷ items) p h =
        add_records-IsOpen items (add_record (decode_record python library item) p)
          (add_record-IsPartial (decode_record python library item) (length items) p h)

    pub stop-IsAccount :
        (p : Progress) (reason : StopReason) (complete : Bool)
        → IsOpen max_records p
        → complete ≡ is_clean reason
        → false ≡ is_bound reason
        → IsAccount max_records (stop_at p reason complete)
    stop-IsAccount p reason complete h c b = record {
      progress_IsOpen = h;
      complete_is_clean = c;
      truncated_is_bound = b;
      truncated_is_full = λ e. cc;
    }

    continue_with-ok :
        (next : Option ℤ) (p : Progress)
        → IsOpen max_records p
        → RoundOk (continue_with python library next p)
    unfolding continue_with
    continue_with-ok none p h = stop-IsAccount p no_iteration_identifier false h refl refl
    continue_with-ok (some identifier) p h = elim (Bool-cases (int_eq identifier p.identifier)) [
      | inl e ↦ rw (e) (stop-IsAccount p iteration_stalled false h refl refl)
      | inr e ↦
          rw (e) record { balanced = h.balanced; bounded = h.bounded; no_padding = h.no_padding }
    ]

    take_batch-ok :
        (remaining : ℕ) (output : Instance) (p : Progress)
        → p.consumed + remaining ≤ max_records
        → IsOpen max_records p
        → RoundOk (take_batch python library remaining output p)
    unfolding take_batch
    take_batch-ok remaining output p r h =
        let batch = take remaining (record_array python output) in
        let counted : length batch ≤ remaining =
          omega (arith, length-take remaining (record_array python output)) in
        let after = add_records python library batch (consume (length batch) p) in
        let opened : IsOpen max_records after =
          add_records-IsOpen batch (consume (length batch) p) record {
            balanced_with = omega (arith, h.balanced);
            bounded_with = omega arith;
            no_padding_with = h.no_padding;
          } in
        elim (Bool-cases (truthy python (get_value "NoMoreRecords" output))) [
          | inl e ↦ rw (e) (stop-IsAccount after no_more_records true opened refl refl)
          | inr e ↦ rw (e) (
              continue_with-ok (optional_int python (get_value "IterationIdentifier" output)) after
                opened)
        ]

    pub after_get_records-ok :
        (remaining : ℕ) (output : Instance) (return_value : ℕ) (p : Progress)
        → p.consumed + remaining ≤ max_records
        → IsOpen max_records p
        → RoundOk (after_get_records python library remaining output return_value p)
    unfolding after_get_records
    after_get_records-ok remaining output return_value p r h =
        elim (Bool-cases (return_value == 3)) [
          | inl e ↦ rw (e) (stop-IsAccount p no_record_exists_in_log true h refl refl)
          | inr e ↦ elim (Bool-cases (return_value == 2)) [
            | inl d ↦ rw (e, d) (stop-IsAccount p invalid_record_pointed false h refl refl)
            | inr d ↦ rw (e, d) (take_batch-ok remaining output p r h)
          ]
        ]
