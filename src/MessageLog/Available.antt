-- ===== src/MessageLog/Available.antt =====
-- message_log.py: the errors of the calls that open the log, and the log that says it is empty.
use ansible_collection_intel.Prelude.{
  ℕ, zero, suc, ◌≡◌, ◌⊎◌, inl, inr, refl, sym, ap, ◌∙◌, subst, ℤ, pos, negsuc, Bool, true, false,
  List, [], ◌∷◌, ◌==◌, Bool-cases, arith,
}
use ansible_collection_intel.Errors.{
  ok_not_raised, Error, Result, ok, err, handled, connection, tls_validation, authentication,
  invalid_state, timeout, identity_mismatch, value_error, struct_error, index_error, key_error,
  os_error, refuse, err_injective, unsupported_capability, protocol, remote_operation,
}
use ansible_collection_intel.Client.{
  Call, Instance, WsmanClient, Action, ◌>>◌, lift, attempt, get, enumerate, invoke, step_rule,
  resume,
}
use ansible_collection_intel.Models.{Python, get_value, optional_int}
use ansible_collection_intel.MessageLog.Container.{
  message_log_class, MessageLogProperties, is_degradable, degrade, is_empty, get_instance,
  enumerated_instance, or_enumerated, get_log_properties, tolerate, tolerated_by_position,
  is_member, invoke_tolerating, first_identifier, position_to_first_record,
}

degraded {ℓ} :
    {A : Type ℓ} (default : A) (e : Error)
    → is_degradable e ≡ true
    → handled (degrade default) (err e) ≡ ok default
degraded default e h = rw (handled, h) refl

not_degraded {ℓ} :
    {A : Type ℓ} (default : A) (e : Error)
    → is_degradable e ≡ false
    → handled (degrade default) (err e) ≡ err e
not_degraded default e h = rw (handled, h) refl

pub degraded-error {ℓ} :
    {A : Type ℓ} (default : A) (r : Result A) (e : Error)
    → handled (degrade default) r ≡ err e
    → is_degradable e ≡ false
degraded-error default (ok a) e h = absurd (ok_not_raised h)
degraded-error default (err raised) e h = elim (Bool-cases (is_degradable raised)) [
  | inl d ↦ absurd (ok_not_raised (sym (degraded default raised d) ∙ h))
  | inr d ↦
      subst (λ x. is_degradable x ≡ false) (err_injective (sym (not_degraded default raised d) ∙ h))
        d
]

-- Errors that the class's absence does not explain.
abbrev pub IsFailure : Error → Type 0
IsFailure e = (e ≡ unsupported_capability) ⊎ (is_degradable e ≡ false)

module _ (client : WsmanClient) (e : Error) where
  -- an action's error, if it raises `e`
  abbrev Failing : {A : Type 0} → Result A × List Call → Type 0
  Failing r = r.0 ≡ err e → IsFailure e

  get_instance-Failing : (calls : List Call) → Failing (get_instance client calls)
  unfolding get_instance
  get_instance-Failing calls h = inr (degraded-error [] (get client message_log_class calls).0 e h)

  or_enumerated-Failing :
      (read : Instance) (calls : List Call) → Failing (or_enumerated client read calls)
  unfolding or_enumerated enumerated_instance
  or_enumerated-Failing [] calls =
      step_rule Failing (attempt (degrade []) (enumerate client message_log_class)) calls _
        (λ raised eq h. inr (
          degraded-error [] (enumerate client message_log_class calls).0 e
            (eq ∙ ap err (err_injective h))))
        (λ items eq h. absurd (ok_not_raised h))
  or_enumerated-Failing (property ∷ properties) calls = λ h. absurd (ok_not_raised h)

  refused-Failing :
      (b : Bool) (rest : Action MessageLogProperties) (calls : List Call)
      → ((after : List Call) → Failing (rest after))
      → Failing ((lift (refuse b unsupported_capability) >> rest) calls)
  refused-Failing true rest calls k h = inl (sym (err_injective h))
  refused-Failing false rest calls k h = k calls h

  module _ (python : Python) where
    -- For every firmware and every error that the read of the container raises: it is the error for
    -- a missing capability, or one that does not say that the class is missing. A ProtocolError of
    -- Get or of Enumerate never leaves it.
    pub get_log_properties-IsFailure :
        (calls : List Call) → (get_log_properties client python calls).0 ≡ err e → IsFailure e
    unfolding get_log_properties
    get_log_properties-IsFailure calls =
        step_rule Failing (get_instance client) calls _
          (λ raised eq h. get_instance-Failing calls (eq ∙ ap err (err_injective h)))
          (λ read eq.
            step_rule Failing (or_enumerated client read) (get_instance client calls).1 _
              (λ raised eq h.
                or_enumerated-Failing read (get_instance client calls).1
                  (eq ∙ ap err (err_injective h)))
              (λ instance eq.
                refused-Failing (is_empty instance) _ _ (λ after h. absurd (ok_not_raised h))))

-- What `_position_to_first_record` promises, by the firmware's answer.
abbrev pub position_of : Python → Result Instance → Result (ℤ × ℕ)
position_of python (ok output) =
    ok (first_identifier (optional_int python (get_value "IterationIdentifier" output)), 0)
position_of python (err (remote_operation (pos (suc zero)))) = err unsupported_capability
position_of python (err (remote_operation (pos (suc (suc zero))))) = ok (pos 1, 2)
position_of python (err raised) = err raised

module _ (python : Python) (client : WsmanClient) where
  abbrev position_answer : List Call → Result Instance
  position_answer calls = client.answer_invoke calls "AMT_MessageLog" "PositionToFirstRecord" [] []

  -- the code behind the invocation, of an answer
  abbrev with_value : Instance → Action (Instance × ℕ)
  with_value output = lift (ok (output, 0))

  abbrev with_identifier : Instance × ℕ → Action (ℤ × ℕ)
  with_identifier (output, return_value) =
      lift (refuse (return_value == 1) unsupported_capability)
      >> lift (
          ok (
            first_identifier (optional_int python (get_value "IterationIdentifier" output)),
            return_value,
          ))

  abbrev positioned : Result Instance → List Call → Result (ℤ × ℕ)
  positioned r after =
      (resume (handled (tolerate tolerated_by_position) (resume r after with_value).0)
        (resume r after with_value).1 with_identifier).0

  handled-other :
      (n : ℕ)
      → handled (tolerate tolerated_by_position) (err (remote_operation (pos (suc (suc (suc n))))))
        ≡ err (remote_operation (pos (suc (suc (suc n)))))
  unfolding tolerate is_member
  handled-other n =
      let not_one : (1 == suc (suc (suc n))) ≡ false = ground arith in
      let not_two : (2 == suc (suc (suc n))) ≡ false = ground arith in
      rw (handled, not_one, not_two) refl

  positioned-position_of :
      (r : Result Instance) (after : List Call) → positioned r after ≡ position_of python r
  unfolding tolerate is_member get_value optional_int first_identifier
  positioned-position_of (ok output) after = refl
  positioned-position_of (err (remote_operation (negsuc n))) after = refl
  positioned-position_of (err (remote_operation (pos zero))) after = refl
  positioned-position_of (err (remote_operation (pos (suc zero)))) after = refl
  positioned-position_of (err (remote_operation (pos (suc (suc zero))))) after = refl
  positioned-position_of (err (remote_operation (pos (suc (suc (suc n)))))) after =
      ap
        (λ r.
          (resume r (resume (err (remote_operation (pos (suc (suc (suc n)))))) after with_value).1
            with_identifier).0)
        (handled-other n)
  positioned-position_of (err connection) after = refl
  positioned-position_of (err tls_validation) after = refl
  positioned-position_of (err authentication) after = refl
  positioned-position_of (err unsupported_capability) after = refl
  positioned-position_of (err invalid_state) after = refl
  positioned-position_of (err (timeout b)) after = refl
  positioned-position_of (err protocol) after = refl
  positioned-position_of (err identity_mismatch) after = refl
  positioned-position_of (err value_error) after = refl
  positioned-position_of (err struct_error) after = refl
  positioned-position_of (err index_error) after = refl
  positioned-position_of (err key_error) after = refl
  positioned-position_of (err os_error) after = refl

  -- For every firmware: an accepted PositionToFirstRecord gives its identifier, or 1 where that is
  -- absent, no number or below 1; ReturnValue 1 is the error for a missing capability; ReturnValue 2
  -- is no error but the sign of an empty log; every other error is passed on as it is.
  pub position_to_first_record-position_of :
      (calls : List Call)
      → (position_to_first_record client python calls).0
        ≡ position_of python (position_answer calls)
  unfolding position_to_first_record invoke_tolerating invoke
  position_to_first_record-position_of calls =
      positioned-position_of (position_answer calls)
        (invoke client message_log_class "PositionToFirstRecord" [] [] calls).1
