-- ===== src/Power/Calls.antt =====
-- client.py, `request_power_state`: the WS-Man calls in their order.
use ansible_collection_intel.Prelude.{
  ℕ, zero, suc, ◌≤◌, ◌≡◌, refl, sym, ap, ◌∙◌, subst, Option, none, some, String, List, [], ◌∷◌,
  ◌++◌, append_assoc, append-nil, replicate, str_eq, Bool-cases, inl, inr, arith,
}
use ansible_collection_intel.Errors.{Error, Result, ok, err}
use ansible_collection_intel.Client.{
  Instance, Call, got, invoked, WsmanClient, Action, resume, lift, get, invoke, step_rule,
}
use ansible_collection_intel.Models.{Python}
use ansible_collection_intel.Models.State.{PowerState, from_cim_value}
use ansible_collection_intel.Power.Request.{
  PowerAction, expected_state, power_params, power_state_class, power_service_class, reported_state,
  Probed, OperationReceipt, get_power_state, probe, after_probe, probe_loop, request_power_state,
}

abbrev pub read_call : Call
read_call = got "CIM_AssociatedPowerManagementService"

-- The one call that changes something.
abbrev pub change_call : PowerAction → Call
change_call action =
    invoked "CIM_PowerManagementService" "RequestPowerStateChange" (power_params action) []

-- At most `bound` reads of the power state were made.
pub record IsProbing (bound : ℕ) (before after : List Call) : Type 0 where
  pub reads : ℕ
  pub few : reads ≤ bound
  pub appended : after ≡ before ++ replicate reads read_call

-- What a request comes to with the firmware's answers to its first two calls.
pub record IsPowerExchange (client : WsmanClient) (poll_count : ℕ) (action : PowerAction)
    (calls : List Call) (r : Result OperationReceipt × List Call) : Type 0 where
  pub unread :
      (e : Error)
      → client.answer_get calls power_state_class ≡ err e
      → r ≡ (err e, calls ++ read_call ∷ [])
  pub rejected :
      (instance : Instance) (e : Error)
      → client.answer_get calls power_state_class ≡ ok instance
      → client.answer_invoke
          (calls ++ read_call ∷ [])
          power_service_class
          "RequestPowerStateChange"
          (power_params action)
          []
        ≡ err e
      → r ≡ (err e, (calls ++ read_call ∷ []) ++ change_call action ∷ [])
  pub accepted :
      (instance output : Instance)
      → client.answer_get calls power_state_class ≡ ok instance
      → client.answer_invoke
          (calls ++ read_call ∷ [])
          power_service_class
          "RequestPowerStateChange"
          (power_params action)
          []
        ≡ ok output
      → IsProbing poll_count ((calls ++ read_call ∷ []) ++ change_call action ∷ []) r.1

state_unchanged {ℓ κ} :
    {A : Type ℓ} {B : Type κ} (r : Result A) (s : List Call) (f : A → B)
    → (resume r s (λ a. lift (ok (f a)))).1 ≡ s
state_unchanged (ok a) s f = refl
state_unchanged (err e) s f = refl

module _ (python : Python) (client : WsmanClient) where
  pub get_power_state-calls :
      (calls : List Call) → (get_power_state python client calls).1 ≡ calls ++ read_call ∷ []
  unfolding get_power_state get
  get_power_state-calls calls =
      state_unchanged (client.answer_get calls power_state_class) (calls ++ read_call ∷ [])
        (λ instance. from_cim_value python (reported_state instance))

  probe-calls : (calls : List Call) → (probe python client calls).1 ≡ calls ++ read_call ∷ []
  unfolding probe
  probe-calls calls =
      state_unchanged (get_power_state python client calls).0
        (get_power_state python client calls).1 some
      ∙ get_power_state-calls calls

  IsProbing-none : (bound : ℕ) (calls : List Call) → IsProbing bound calls calls
  IsProbing-none bound calls = record {
    reads = 0;
    few = omega arith;
    appended = sym (append-nil calls);
  }

  IsProbing-one :
      (bound : ℕ) (before middle after : List Call)
      → middle ≡ before ++ read_call ∷ []
      → IsProbing bound middle after
      → IsProbing (suc bound) before after
  IsProbing-one bound before middle after e h = record {
    reads = suc h.reads;
    few = omega (arith, h.few);
    appended =
        h.appended
        ∙ ap (λ m. m ++ replicate h.reads read_call) e
        ∙ append_assoc before (read_call ∷ []) (replicate h.reads read_call);
  }

  after_probe-IsProbing :
      (expected : String) (again : Probed → Action Probed) (seen : Probed)
      (state : Option PowerState) (bound : ℕ) (calls : List Call)
      → ((now : Probed) → IsProbing bound calls (again now calls).1)
      → IsProbing bound calls (after_probe python client expected again seen state calls).1
  unfolding after_probe
  after_probe-IsProbing expected again seen none bound calls h = h seen
  after_probe-IsProbing expected again seen (some state) bound calls h =
      elim (Bool-cases (str_eq state.normalized expected)) [
        | inl e ↦ rw (e) (IsProbing-none bound calls)
        | inr e ↦ rw (e) (h _)
      ]

  probe_loop-IsProbing :
      (left : ℕ) (expected : String) (seen : Probed) (calls : List Call)
      → IsProbing left calls (probe_loop python client left expected seen calls).1
  unfolding probe_loop
  probe_loop-IsProbing zero expected seen calls = IsProbing-none 0 calls
  probe_loop-IsProbing (suc left) expected seen calls =
      IsProbing-one left calls (probe python client calls).1 _ (probe-calls calls) (
        step_rule (λ r. IsProbing left (probe python client calls).1 r.1) (probe python client)
          calls _ (λ e raised. IsProbing-none left (probe python client calls).1)
          (λ state returned.
            after_probe-IsProbing expected (probe_loop python client left expected) seen state left
              (probe python client calls).1
              (λ now. probe_loop-IsProbing left expected now (probe python client calls).1)))

  -- For every firmware, number of probes and action: where the first read of the power state fails,
  -- its error is raised and nothing was requested; where the firmware refuses the request, or its
  -- answer is lost, that error is raised and the request was made once and nothing behind it; where
  -- it accepts, the request was made once, and at most poll_count reads follow it.
  pub request_power_state-IsPowerExchange :
      (poll_count : ℕ) (action : PowerAction) (calls : List Call)
      → IsPowerExchange client poll_count action calls
          (request_power_state python client poll_count action calls)
  unfolding request_power_state get_power_state get invoke
  request_power_state-IsPowerExchange poll_count action calls = record {
    unread = λ e failed. rw (failed) refl;
    rejected = λ instance e answered failed. rw (answered, failed) refl;
    accepted = λ instance output answered done.
        rw (answered, done)
          (subst (IsProbing poll_count ((calls ++ read_call ∷ []) ++ change_call action ∷ []))
            (sym (
              state_unchanged
                (probe_loop python client poll_count (expected_state action)
                  record { probes = []; observed = none }
                  ((calls ++ read_call ∷ []) ++ change_call action ∷ [])).0
                _ _))
            (probe_loop-IsProbing poll_count (expected_state action)
              record { probes = []; observed = none }
              ((calls ++ read_call ∷ []) ++ change_call action ∷ [])));
  }
