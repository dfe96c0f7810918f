-- ===== src/Modules/Power.antt =====
-- modules/amt_power.py: `plan` and `main`, behind the construction of the client.
use ansible_collection_intel.Prelude.{
  ℕ, Bool, true, false, not, ◌||◌, Option, none, some, String, str_eq, if◌then◌else◌,
}
use ansible_collection_intel.Errors.{Result, ok, err, key_error}
use ansible_collection_intel.Client.{WsmanClient, Action, ◌>>=◌, lift}
use ansible_collection_intel.Models.{Python}
use ansible_collection_intel.Models.State.{PowerState}
use ansible_collection_intel.Power.Request.{
  PowerAction, on, off, cycle, reset, reboot, sleep_light, sleep_deep, hibernate, expected_state,
  OperationReceipt, get_power_state, request_power_state,
}

-- `_STATE_TO_ACTION[state]`
unfoldable pub action_of_state : String → Result PowerAction
action_of_state state =
    if str_eq state "on"
    then ok on
    else (if str_eq state "off"
        then ok off
        else (if str_eq state "reboot"
            then ok reboot
            else (if str_eq state "reset"
                then ok reset
                else (if str_eq state "cycle"
                    then ok cycle
                    else (if str_eq state "sleep-light"
                        then ok sleep_light
                        else (if str_eq state "sleep-deep"
                            then ok sleep_deep
                            else (if str_eq state "hibernate"
                                then ok hibernate
                                else err key_error)))))))

-- `state in _CONVERGENT_STATES`
unfoldable pub is_convergent : String → Bool
is_convergent state = str_eq state "on" || str_eq state "off" || str_eq state "hibernate"

-- Whether a request is needed, and the state it aims at.
pub record PowerPlan : Type 0 where
  pub changed : Bool
  pub desired : Option String

-- the plan of a state that has an action
unfoldable pub plan_of : String → String → Result PowerAction → Result PowerPlan
unfolding is_convergent
plan_of state previous_normalized (err e) = err e
plan_of state previous_normalized (ok action) = ok record {
  changed =
      if is_convergent state
      then not (str_eq previous_normalized (expected_state action))
      else true;
  desired = some (expected_state action);
}

-- `plan`
unfoldable pub plan_power : String → String → Result PowerPlan
unfolding action_of_state plan_of
plan_power state previous_normalized =
    if str_eq state "query"
    then ok record { changed = false; desired = none }
    else plan_of state previous_normalized (action_of_state state)

-- What the module exits with: a receipt of what was planned only, or of what was requested.
pub data PowerExit : Type 0 where
  planned : PowerState → PowerPlan → PowerExit
  requested : OperationReceipt → PowerExit

module _ (python : Python) (client : WsmanClient) (poll_count : ℕ) where
  -- the request itself
  unfoldable pub send_request : String → Action PowerExit
  unfolding action_of_state request_power_state
  send_request state = lift (action_of_state state) >>= λ action.
      request_power_state python client poll_count action >>= λ receipt.
      lift (ok (requested receipt))

  unfoldable pub run_power : String → Bool → Action PowerExit
  unfolding get_power_state plan_power send_request
  run_power state check_mode = get_power_state python client >>= λ previous.
      lift (plan_power state previous.normalized) >>= λ plan.
      if not plan.changed || check_mode
      then lift (ok (planned previous plan))
      else send_request state
