-- ===== src/MessageLog/Rounds.antt =====
-- message_log.py: how far one round of `read_records` gets.
use ansible_collection_intel.Prelude.{
  ℕ, ◌-◌, ◌<◌, ◌≡◌, ◌⊎◌, inl, inr, refl, sym, ap, ◌∙◌, subst, ℤ, pos, negsuc, true, Option, none,
  some, String, List, [], ◌∷◌, length, length-take, take, ◌==◌, int_eq, if_true, if_false,
  Bool-cases, Option-cases, some_injective, none_not_some, arith,
}
use ansible_collection_intel.Errors.{
  Error, Result, ok, err, ok_injective, raised_not_ok, handled, connection, tls_validation,
  authentication, unsupported_capability, invalid_state, timeout, protocol, remote_operation,
  identity_mismatch, value_error, struct_error, index_error, key_error, os_error,
}
use ansible_collection_intel.Client.{Call, Instance, WsmanClient, lift, step_rule, resume, invoke}
use ansible_collection_intel.Models.{Python, get_value, truthy, optional_int}
use ansible_collection_intel.MessageLog.Decode.{Library}
use ansible_collection_intel.MessageLog.Container.{
  message_log_class, is_member, tolerate, invoke_tolerating, tolerated_by_get_records,
}
use ansible_collection_intel.MessageLog.Read.{
  Progress, Round, break, again, count_batch, add_record, consume, record_array, add_records,
  continue_with, take_batch, after_get_records, get_records_params, round,
}

-- A firmware that does not end the iteration hands out a record with every answer.
pub record IsProductive (python : Python) (client : WsmanClient) : Type 0 where
  pub hands_out :
      (calls : List Call) (params output : Instance)
      → client.answer_invoke calls message_log_class "GetRecords" params [] ≡ ok output
      → (truthy python (get_value "NoMoreRecords" output) ≡ true)
        ⊎ (0 < length (record_array python output))

-- A round that goes on has taken an element.
abbrev pub Advances : ℕ → Round → Type 0
Advances n (break ended) = Unit
Advances n (again p) = n < p.consumed

handled-none :
    (tolerated : List ℕ) (e : Error)
    → tolerate tolerated e ≡ none
    → handled (tolerate tolerated) (err e) ≡ err e
handled-none tolerated e h = rw (handled, h) refl

handled-some :
    (tolerated : List ℕ) (e : Error) (answer : Instance × ℕ)
    → tolerate tolerated e ≡ some answer
    → handled (tolerate tolerated) (err e) ≡ ok answer
handled-some tolerated e answer h = rw (handled, h) refl

tolerate-member :
    (tolerated : List ℕ) (e : Error) (answer : Instance × ℕ)
    → tolerate tolerated e ≡ some answer
    → is_member answer.1 tolerated ≡ true
unfolding tolerate
tolerate-member tolerated (remote_operation (pos n)) answer h =
    elim (Bool-cases (is_member n tolerated)) [
      | inl e ↦
          subst (λ a. is_member a.1 tolerated ≡ true)
            (some_injective (sym (if_true (is_member n tolerated) _ _ e) ∙ h)) e
      | inr e ↦ absurd (none_not_some (sym (if_false (is_member n tolerated) _ _ e) ∙ h))
    ]
tolerate-member tolerated (remote_operation (negsuc n)) answer h = absurd (none_not_some h)
tolerate-member tolerated connection answer h = absurd (none_not_some h)
tolerate-member tolerated tls_validation answer h = absurd (none_not_some h)
tolerate-member tolerated authentication answer h = absurd (none_not_some h)
tolerate-member tolerated unsupported_capability answer h = absurd (none_not_some h)
tolerate-member tolerated invalid_state answer h = absurd (none_not_some h)
tolerate-member tolerated (timeout b) answer h = absurd (none_not_some h)
tolerate-member tolerated protocol answer h = absurd (none_not_some h)
tolerate-member tolerated identity_mismatch answer h = absurd (none_not_some h)
tolerate-member tolerated value_error answer h = absurd (none_not_some h)
tolerate-member tolerated struct_error answer h = absurd (none_not_some h)
tolerate-member tolerated index_error answer h = absurd (none_not_some h)
tolerate-member tolerated key_error answer h = absurd (none_not_some h)
tolerate-member tolerated os_error answer h = absurd (none_not_some h)

abbrev tolerated_answer : List ℕ → Result Instance → List Call → Result (Instance × ℕ)
tolerated_answer tolerated r after =
    handled (tolerate tolerated) (resume r after (λ output. lift (ok (output, 0)))).0

-- What `_invoke_tolerating_return_values` returns: the output of a call that was accepted, or a
-- ReturnValue that is tolerated.
tolerated_answer-cases :
    (tolerated : List ℕ) (r : Result Instance) (after : List Call) (answer : Instance × ℕ)
    → tolerated_answer tolerated r after ≡ ok answer
    → ((answer.1 ≡ 0) × (r ≡ ok answer.0)) ⊎ (is_member answer.1 tolerated ≡ true)
tolerated_answer-cases tolerated (ok output) after answer h =
    inl (ap (λ a. a.1) (sym (ok_injective h)), ap (λ a. ok a.0) (ok_injective h))
tolerated_answer-cases tolerated (err e) after answer h =
    elim (Option-cases (tolerate tolerated e)) [
      | inl n ↦ absurd (raised_not_ok (sym (handled-none tolerated e n) ∙ h))
      | inr found ↦ inr (
          tolerate-member tolerated e answer
            (found.1 ∙ ap some (ok_injective (sym (handled-some tolerated e found.0 found.1) ∙ h))))
    ]

module _ (python : Python) (library : Library) where
  add_records-consumed :
      (items : List String) (p : Progress)
      → (add_records python library items p).consumed ≡ p.consumed
  unfolding add_records add_record
  add_records-consumed [] p = refl
  add_records-consumed (item ∷ items) p = add_records-consumed items _

  continue_with-Advances :
      (next : Option ℤ) (p : Progress) (n : ℕ)
      → n < p.consumed
      → Advances n (continue_with python library next p)
  unfolding continue_with
  continue_with-Advances none p n h = tt
  continue_with-Advances (some identifier) p n h =
      elim (Bool-cases (int_eq identifier p.identifier)) [ inl e ↦ rw (e) tt | inr e ↦ rw (e) h ]

  take_batch-Advances :
      (remaining : ℕ) (output : Instance) (p : Progress)
      → 0 < remaining
      → (truthy python (get_value "NoMoreRecords" output) ≡ true)
        ⊎ (0 < length (record_array python output))
      → Advances p.consumed (take_batch python library remaining output p)
  unfolding take_batch
  take_batch-Advances remaining output p r (inl done) = rw (done) tt
  take_batch-Advances remaining output p r (inr more) =
      let batch : List String = take remaining (record_array python output) in
      let counted = length-take remaining (record_array python output) in
      let consumed = add_records-consumed batch (consume (length batch) p) in
      elim (Bool-cases (truthy python (get_value "NoMoreRecords" output))) [
        | inl e ↦ rw (e) tt
        | inr e ↦ rw (e) (
            continue_with-Advances (optional_int python (get_value "IterationIdentifier" output))
              (add_records python library batch (consume (length batch) p)) p.consumed
              (omega (arith, counted, consumed)))
      ]

  accepted-Advances :
      (remaining : ℕ) (output : Instance) (return_value : ℕ) (p : Progress)
      → return_value ≡ 0
      → 0 < remaining
      → (truthy python (get_value "NoMoreRecords" output) ≡ true)
        ⊎ (0 < length (record_array python output))
      → Advances p.consumed (after_get_records python library remaining output return_value p)
  unfolding after_get_records
  accepted-Advances remaining output return_value p e r h =
      rw (e) (take_batch-Advances remaining output p r h)

  refused-Advances :
      (remaining : ℕ) (output : Instance) (return_value : ℕ) (p : Progress)
      → is_member return_value tolerated_by_get_records ≡ true
      → Advances p.consumed (after_get_records python library remaining output return_value p)
  unfolding after_get_records is_member
  refused-Advances remaining output return_value p h = elim (Bool-cases (return_value == 3)) [
    | inl e ↦ rw (e) tt
    | inr e ↦ elim (Bool-cases (return_value == 2)) [
      | inl d ↦ rw (e, d) tt
      | inr d ↦ absurd (ground (arith, e, d, h))
    ]
  ]

  module _ (client : WsmanClient) (max_records batch_size : ℕ)
      (productive : IsProductive python client) where
    pub round-Advances :
        (p : Progress) (calls : List Call) (decision : Round)
        → p.consumed < max_records
        → (round python library client max_records batch_size p calls).0 ≡ ok decision
        → Advances p.consumed decision
    unfolding round invoke_tolerating invoke
    round-Advances p calls decision h =
        let params = get_records_params python library client max_records batch_size p in
        step_rule (λ r. r.0 ≡ ok decision → Advances p.consumed decision)
          (invoke_tolerating client "GetRecords" params tolerated_by_get_records) calls _
          (λ e raised eq. absurd (raised_not_ok eq))
          (λ answer returned eq.
            subst (Advances p.consumed) (ok_injective eq)
              (elim (tolerated_answer-cases tolerated_by_get_records
                (client.answer_invoke calls message_log_class "GetRecords" params []) _ answer
                returned) [
                  | inl accepted ↦
                      accepted-Advances (max_records - p.consumed) answer.0 answer.1 (count_batch p)
                        accepted.0 (omega arith)
                        (productive.hands_out calls params answer.0 accepted.1)
                  | inr refused ↦
                      refused-Advances (max_records - p.consumed) answer.0 answer.1 (count_batch p)
                        refused
                ]))
