-- ===== src/Power/Returns.antt =====
-- client.py, `request_power_state`: an accepted request is reported, whatever the probes come to.
use ansible_collection_intel.Prelude.{
  ℕ, zero, suc, ◌≡◌, ◌≢◌, refl, sym, ◌∙◌, Option, none, some, String, List, [], ◌∷◌, ◌++◌, str_eq,
  Bool-cases, Option-cases, inl, inr,
}
use ansible_collection_intel.Errors.{ok_not_raised, Error, Result, ok, err, handled, error_class}
use ansible_collection_intel.Client.{
  Instance, Call, got, WsmanClient, Action, resume, lift, get, invoke, step_rule,
}
use ansible_collection_intel.Models.{Python}
use ansible_collection_intel.Models.State.{PowerState, from_cim_value}
use ansible_collection_intel.Power.Request.{
  PowerAction, expected_state, power_params, power_state_class, power_service_class, reported_state,
  Probed, skip_amt_error, get_power_state, probe, after_probe, probe_loop, request_power_state,
}

skipped :
    (e : Error) (c : String) → error_class e ≡ some c → handled skip_amt_error (err e) ≡ ok none
unfolding skip_amt_error
skipped e c h = rw (handled, h) refl

module _ (python : Python) (client : WsmanClient) where
  -- The only errors of a Get are the collection's own.
  abbrev pub OnlyAmtErrors : Type 0
  OnlyAmtErrors =
      (calls : List Call) (name : String) (e : Error)
      → client.answer_get calls name ≡ err e
      → error_class e ≢ none

  module _ (only : OnlyAmtErrors) where
    -- an action that returns
    abbrev Returns : {A : Type 0} → Result A × List Call → Type 0
    Returns r = (e : Error) → r.0 ≡ err e → ⊥

    probe_answer-returns :
        (calls : List Call) (answer : Result Instance)
        → client.answer_get calls power_state_class ≡ answer
        → (e : Error)
        → (handled skip_amt_error
            (resume
              (resume answer
                (calls ++ got power_state_class ∷ [])
                (λ instance. lift (ok (from_cim_value python (reported_state instance))))).0
              (resume answer
                (calls ++ got power_state_class ∷ [])
                (λ instance. lift (ok (from_cim_value python (reported_state instance))))).1
              (λ state. lift (ok (some state)))).0)
          ≡ err e
        → ⊥
    probe_answer-returns calls (ok instance) answered e h = ok_not_raised h
    probe_answer-returns calls (err raised) answered e h =
        elim (Option-cases (error_class raised)) [
          | inl n ↦ only calls power_state_class raised answered n
          | inr c ↦ ok_not_raised (sym (skipped raised c.0 c.1) ∙ h)
        ]

    probe-Returns : (calls : List Call) → Returns (probe python client calls)
    unfolding probe get_power_state get
    probe-Returns calls e h =
        probe_answer-returns calls (client.answer_get calls power_state_class) refl e h

    after_probe-Returns :
        (expected : String) (again : Probed → Action Probed) (seen : Probed)
        (state : Option PowerState) (calls : List Call)
        → ((now : Probed) → Returns (again now calls))
        → Returns (after_probe python client expected again seen state calls)
    unfolding after_probe
    after_probe-Returns expected again seen none calls k = k seen
    after_probe-Returns expected again seen (some state) calls k =
        elim (Bool-cases (str_eq state.normalized expected)) [
          | inl e ↦ rw (e) (λ raised h. ok_not_raised h)
          | inr e ↦ rw (e) (k _)
        ]

    probe_loop-Returns :
        (left : ℕ) (expected : String) (seen : Probed) (calls : List Call)
        → Returns (probe_loop python client left expected seen calls)
    unfolding probe_loop
    probe_loop-Returns zero expected seen calls = λ e h. ok_not_raised h
    probe_loop-Returns (suc left) expected seen calls =
        step_rule Returns (probe python client) calls _
          (λ e raised. absurd (probe-Returns calls e raised))
          (λ state returned.
            after_probe-Returns expected (probe_loop python client left expected) seen state
              (probe python client calls).1
              (λ now. probe_loop-Returns left expected now (probe python client calls).1))

    -- For every firmware whose Gets raise no error but the collection's, every number of probes and
    -- action: where the first read answers and the request is accepted, the request is reported by a
    -- receipt, however the probes behind it fail.
    pub request_power_state-returns :
        (poll_count : ℕ) (action : PowerAction) (calls : List Call) (instance output : Instance)
        → client.answer_get calls power_state_class ≡ ok instance
        → client.answer_invoke
            (calls ++ got power_state_class ∷ [])
            power_service_class
            "RequestPowerStateChange"
            (power_params action)
            []
          ≡ ok output
        → (e : Error) → (request_power_state python client poll_count action calls).0 ≢ err e
    unfolding request_power_state get_power_state get invoke
    request_power_state-returns poll_count action calls instance output read accepted =
        rw (read, accepted)
          (step_rule Returns
            (probe_loop python client poll_count (expected_state action)
              record { probes = []; observed = none })
            _ _ (λ e raised. absurd (probe_loop-Returns poll_count _ _ _ e raised))
            (λ seen watched e h. ok_not_raised h))
