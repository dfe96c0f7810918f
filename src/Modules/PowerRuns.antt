-- ===== src/Modules/PowerRuns.antt =====
-- modules/amt_power.py: when a run of the module requests nothing.
use ansible_collection_intel.Prelude.{
  ◌≡◌, refl, sym, ap, ◌∙◌, subst, ◌⊎◌, inl, inr, Bool, true, false, not, ◌||◌, String, List, [],
  ◌∷◌, ◌++◌, ℕ, str_eq, eq_iff, Bool-cases, if_true, if_false, if◌then◌else◌,
}
use ansible_collection_intel.Errors.{Result, ok, ok_injective}
use ansible_collection_intel.Client.{Instance, Call, WsmanClient, Action, lift, get, step_rule}
use ansible_collection_intel.Models.{Python}
use ansible_collection_intel.Models.State.{PowerState, from_cim_value}
use ansible_collection_intel.Power.Request.{
  PowerAction, expected_state, power_state_class, reported_state, get_power_state,
}
use ansible_collection_intel.Power.Calls.{read_call, get_power_state-calls}
use ansible_collection_intel.Modules.Power.{
  action_of_state, is_convergent, PowerPlan, plan_of, plan_power, PowerExit, planned, send_request,
  run_power,
}

-- The option asks for nothing that is not already so.
abbrev pub IsSettled : String → String → Type 0
IsSettled state previous_normalized =
    (state ≡ "query")
    ⊎ ((action : PowerAction) × (action_of_state state ≡ ok action)
        × (is_convergent state ≡ true)
        × (previous_normalized ≡ expected_state action))

-- the plan changes nothing
IsIdle : Result PowerPlan → Type 0
IsIdle r = (plan : PowerPlan) → r ≡ ok plan → plan.changed ≡ false

IsIdle-query :
    (state previous : String) → str_eq state "query" ≡ true → IsIdle (plan_power state previous)
unfolding IsIdle plan_power
IsIdle-query state previous e plan h =
    ap (λ p. p.changed) (sym (ok_injective (sym (if_true (str_eq state "query") _ _ e) ∙ h)))

convergent_changed : (b c : Bool) → b ≡ true → c ≡ true → (if b then not c else true) ≡ false
convergent_changed true true e f = refl
convergent_changed true false e f = cc
convergent_changed false c e f = cc

IsIdle-settled :
    (state previous : String) (action : PowerAction)
    → action_of_state state ≡ ok action
    → is_convergent state ≡ true
    → previous ≡ expected_state action
    → IsIdle (plan_of state previous (action_of_state state))
unfolding IsIdle plan_of
IsIdle-settled state previous action found convergent same plan h =
    ap (λ p. p.changed) (sym (ok_injective (sym (ap (plan_of state previous) found) ∙ h)))
    ∙ convergent_changed (is_convergent state) (str_eq previous (expected_state action)) convergent
        ((eq_iff previous (expected_state action)).1 same)

not_query :
    (state previous : String)
    → str_eq state "query" ≡ false
    → plan_power state previous ≡ plan_of state previous (action_of_state state)
unfolding plan_power
not_query state previous e = if_false (str_eq state "query") _ _ e

IsIdle-plan_power :
    (state previous : String) → IsSettled state previous → IsIdle (plan_power state previous)
IsIdle-plan_power state previous (inl query) =
    IsIdle-query state previous ((eq_iff state "query").1 query)
IsIdle-plan_power state previous (inr settled) = elim (Bool-cases (str_eq state "query")) [
  | inl e ↦ IsIdle-query state previous e
  | inr e ↦
      subst IsIdle (sym (not_query state previous e))
        (IsIdle-settled state previous settled.0 settled.1 settled.2 settled.3)
]

module _ (python : Python) (client : WsmanClient) (poll_count : ℕ) (state : String) where
  pub record IsPowerRun (check_mode : Bool) (calls : List Call) (r : Result PowerExit × List Call)
      : Type 0 where
    pub quiet : check_mode ≡ true → r.1 ≡ calls ++ read_call ∷ []
    pub unneeded :
        (instance : Instance)
        → client.answer_get calls power_state_class ≡ ok instance
        → IsSettled state (from_cim_value python (reported_state instance)).normalized
        → r.1 ≡ calls ++ read_call ∷ []

  if_idle :
      (b : Bool) (exit : Result PowerExit) (next : Action PowerExit) (calls : List Call)
      → b ≡ true
      → ((if b then lift exit else next) calls).1 ≡ calls
  if_idle true exit next calls e = refl
  if_idle false exit next calls e = cc

  idle_or : (b c : Bool) → (b ≡ false) ⊎ (c ≡ true) → (not b || c) ≡ true
  idle_or true c (inl e) = cc
  idle_or true true (inr e) = refl
  idle_or true false (inr e) = cc
  idle_or false c e = refl

  read_state :
      (calls : List Call) (instance : Instance)
      → client.answer_get calls power_state_class ≡ ok instance
      → (get_power_state python client calls).0
        ≡ ok (from_cim_value python (reported_state instance))
  unfolding get_power_state get
  read_state calls instance answered = rw (answered) refl

  run_power-calls :
      (check_mode : Bool) (calls : List Call)
      → ((previous : PowerState) (plan : PowerPlan)
          → (get_power_state python client calls).0 ≡ ok previous
          → plan_power state previous.normalized ≡ ok plan
          → (plan.changed ≡ false) ⊎ (check_mode ≡ true))
      → (run_power python client poll_count state check_mode calls).1 ≡ calls ++ read_call ∷ []
  unfolding run_power
  run_power-calls check_mode calls idle =
      step_rule (λ r. r.1 ≡ calls ++ read_call ∷ []) (get_power_state python client) calls _
        (λ e raised. get_power_state-calls python client calls)
        (λ previous read.
          step_rule (λ r. r.1 ≡ calls ++ read_call ∷ [])
            (lift (plan_power state previous.normalized)) (get_power_state python client calls).1 _
            (λ e raised. get_power_state-calls python client calls)
            (λ plan made.
              if_idle (not plan.changed || check_mode) (ok (planned previous plan))
                (send_request python client poll_count state)
                (get_power_state python client calls).1
                (idle_or plan.changed check_mode (idle previous plan read made))
              ∙ get_power_state-calls python client calls))

  -- For every firmware and option: in check mode, and where the option only queries or names a
  -- convergent state that the machine is already in, the one call that a run makes is the read of the
  -- power state.
  pub run_power-IsPowerRun :
      (check_mode : Bool) (calls : List Call)
      → IsPowerRun check_mode calls (run_power python client poll_count state check_mode calls)
  unfolding IsIdle
  run_power-IsPowerRun check_mode calls = record {
    quiet = λ checked. run_power-calls check_mode calls (λ previous plan read made. inr checked);
    unneeded = λ instance answered settled.
        run_power-calls check_mode calls (λ previous plan read made. inl (
          IsIdle-plan_power state previous.normalized
            (subst (λ p. IsSettled state p.normalized)
              (ok_injective (sym (read_state calls instance answered) ∙ read)) settled)
            plan made));
  }
