-- ===== src/MessageLog/Accounting.antt =====
-- message_log.py: what `read_records` counts, keeps and reports.
use ansible_collection_intel.Prelude.{
  ℕ, zero, suc, ◌-◌, ◌≡◌, refl, ap, ◌∙◌, subst, ℤ, true, Option, none, some, List, leb, ◌==◌,
  Bool-cases, some_injective, none_not_some, inl, inr, arith,
}
use ansible_collection_intel.Errors.{Result, ok, ok_injective, raised_not_ok}
use ansible_collection_intel.Client.{Call, WsmanClient, Action, step_rule}
use ansible_collection_intel.Models.{Python}
use ansible_collection_intel.MessageLog.Decode.{Library}
use ansible_collection_intel.MessageLog.Container.{
  MessageLogProperties, get_log_properties, invoke_tolerating, tolerated_by_get_records,
  position_to_first_record,
}
use ansible_collection_intel.MessageLog.Read.{
  no_record_exists, Progress, Ended, MessageLogRead, start_at, Round, break, again, count_batch,
  get_records_params, round, go_on, read_loop, report_of, read_from, read_records,
}
use ansible_collection_intel.MessageLog.Balance.{
  IsOpen, IsAccount, RoundOk, stop-IsAccount, after_get_records-ok,
}

nothing_not_ok {ℓ} : {A : Type ℓ} {a : A} → Path (Result (Option A)) (ok none) (ok (some a)) → ⊥
nothing_not_ok e = none_not_some (ok_injective e)

ok_some_injective {ℓ} :
    {A : Type ℓ} {a b : A} → Path (Result (Option A)) (ok (some a)) (ok (some b)) → a ≡ b
ok_some_injective e = some_injective (ok_injective e)

module _ (max_records : ℕ) (python : Python) (library : Library) where
  module _ (client : WsmanClient) (batch_size : ℕ) where
    round-ok :
        (p : Progress) (calls : List Call) (decision : Round)
        → IsOpen max_records p
        → (round python library client max_records batch_size p calls).0 ≡ ok decision
        → RoundOk max_records decision
    unfolding round
    round-ok p calls decision h =
        step_rule (λ r. r.0 ≡ ok decision → RoundOk max_records decision)
          (invoke_tolerating client "GetRecords"
            (get_records_params python library client max_records batch_size p)
            tolerated_by_get_records)
          calls _ (λ e raised eq. absurd (raised_not_ok eq))
          (λ answer returned eq. subst (RoundOk max_records) (ok_injective eq) (
            after_get_records-ok max_records python library (max_records - p.consumed) answer.0
              answer.1 (count_batch p) (omega (arith, h.bounded))
              record { balanced = h.balanced; bounded = h.bounded; no_padding = h.no_padding }))

    -- what holds of a loop that ended
    abbrev LoopOk : Result (Option Ended) × List Call → Type 0
    LoopOk r = (ended : Ended) → r.0 ≡ ok (some ended) → IsAccount max_records ended

    go_on-ok :
        (rest : Progress → Action (Option Ended)) (decision : Round) (calls : List Call)
        → ((next : Progress) (after : List Call)
            → IsOpen max_records next
            → LoopOk (rest next after))
        → RoundOk max_records decision
        → LoopOk (go_on rest decision calls)
    unfolding go_on
    go_on-ok rest (break ended) calls k h =
        λ left eq. subst (IsAccount max_records) (ok_some_injective eq) h
    go_on-ok rest (again next) calls k h = k next calls h

    read_loop-ok :
        (fuel : ℕ) (p : Progress) (calls : List Call)
        → IsOpen max_records p
        → LoopOk (read_loop python library client max_records batch_size fuel p calls)
    unfolding read_loop
    read_loop-ok zero p calls h = λ ended e. absurd (nothing_not_ok e)
    read_loop-ok (suc fuel) p calls h = elim (Bool-cases (leb max_records p.consumed)) [
      | inl e ↦ rw (e) (λ ended eq. subst (IsAccount max_records) (ok_some_injective eq) record {
        progress_IsOpen = h;
        complete_is_clean = refl;
        truncated_is_bound = refl;
        truncated_is_full = λ t. ground (arith, e, h.bounded);
      })
      | inr e ↦ rw (e) (
          step_rule LoopOk (round python library client max_records batch_size p) calls _
            (λ raised eq ended h. absurd (raised_not_ok h))
            (λ decision eq.
              go_on-ok (read_loop python library client max_records batch_size fuel) decision
                (round python library client max_records batch_size p calls).1
                (λ next after. read_loop-ok fuel next after) (round-ok p calls decision h eq)))
    ]

    start-IsOpen : (identifier : ℤ) → IsOpen max_records (start_at identifier)
    start-IsOpen identifier = record { balanced = refl; bounded = omega arith; no_padding = tt }

    -- what holds of a read that returned
    abbrev ReadOk : Result (Option MessageLogRead) × List Call → Type 0
    ReadOk r = (read : MessageLogRead) → r.0 ≡ ok (some read) → IsAccount max_records read.ended

    report_of-ok :
        (properties : MessageLogProperties) (left : Option Ended)
        → ((ended : Ended) → left ≡ some ended → IsAccount max_records ended)
        → (read : MessageLogRead)
        → ok (report_of python library client max_records batch_size properties left)
          ≡ ok (some read)
        → IsAccount max_records read.ended
    report_of-ok properties none h read e = absurd (nothing_not_ok e)
    report_of-ok properties (some ended) h read e =
        subst (λ r. IsAccount max_records r.ended) (ok_some_injective e) (h ended refl)

    read_from-ok :
        (fuel : ℕ) (properties : MessageLogProperties) (identifier : ℤ) (return_value : ℕ)
        (calls : List Call)
        → ReadOk (
            read_from python library client max_records batch_size fuel properties identifier
              return_value calls)
    unfolding read_from
    read_from-ok fuel properties identifier return_value calls =
        elim (Bool-cases (return_value == 2)) [
          | inl e ↦ rw (e) (λ read eq.
              subst (λ r. IsAccount max_records r.ended) (ok_some_injective eq)
                (stop-IsAccount max_records python library (start_at identifier) no_record_exists
                  true (start-IsOpen identifier) refl refl))
          | inr e ↦ rw (e) (
              step_rule ReadOk
                (read_loop python library client max_records batch_size fuel (start_at identifier))
                calls _ (λ raised eq read h. absurd (raised_not_ok h))
                (λ ended eq. report_of-ok properties ended (λ left got.
                  read_loop-ok fuel (start_at identifier) calls (start-IsOpen identifier) left
                    (eq ∙ ap ok got))))
        ]

    -- For every firmware, fuel, bound and batch size, and whatever was called before: a read that
    -- returns has kept or counted as padding exactly the elements it took from the firmware, of
    -- which there are at most max_records; none of the records kept is an empty slot; it is
    -- complete exactly where its reason to stop is a clean one, and truncated exactly where the bound
    -- ended it, which was then reached.
    pub read_records-IsAccount :
        (fuel : ℕ) (calls : List Call) (read : MessageLogRead)
        → (read_records python library client max_records batch_size fuel calls).0 ≡ ok (some read)
        → IsAccount max_records read.ended
    unfolding read_records
    read_records-IsAccount fuel calls =
        step_rule ReadOk (get_log_properties client python) calls _
          (λ raised eq read h. absurd (raised_not_ok h))
          (λ properties eq.
            step_rule ReadOk (position_to_first_record client python)
              (get_log_properties client python calls).1 _
              (λ raised eq read h. absurd (raised_not_ok h))
              (λ position eq.
                read_from-ok fuel properties position.0 position.1
                  (position_to_first_record client python
                    (get_log_properties client python calls).1).1))
