-- ===== src/Power/Request.antt =====
-- client.py: `get_power_state` and `request_power_state`. The pause before a probe, and the receipt's
-- endpoint and certificate fingerprint, which are the connection's, are left out.
use Prim.Native.String.{◌++◌ as concat}
use ansible_collection_intel.Prelude.{
  ℕ, zero, suc, pos, negsuc, Bool, true, Option, none, some, String, List, [], ◌∷◌, ◌++◌, Dict,
  lookup, str_eq, if◌then◌else◌,
}
use ansible_collection_intel.Errors.{Error, ok, error_class}
use ansible_collection_intel.Client.{
  Value, number, epr, Instance, WsmanClient, Action, ◌>>=◌, lift, attempt, get, invoke,
}
use ansible_collection_intel.Models.{Python}
use ansible_collection_intel.Models.State.{PowerState, from_cim_value}

pub data PowerAction : Type 0 where
  on off cycle reset reboot sleep_light sleep_deep hibernate : PowerAction

-- `action.value`
unfoldable pub action_value : PowerAction → String
action_value on = "on"
action_value off = "off"
action_value cycle = "cycle"
action_value reset = "reset"
action_value reboot = "reboot"
action_value sleep_light = "sleep-light"
action_value sleep_deep = "sleep-deep"
action_value hibernate = "hibernate"

-- `_POWER_ACTION_CODES`
unfoldable pub action_code : PowerAction → ℕ
action_code on = 2
action_code sleep_light = 3
action_code sleep_deep = 4
action_code cycle = 5
action_code hibernate = 7
action_code off = 8
action_code reset = 10
action_code reboot = 10

-- `_ACTION_EXPECTED_STATE`
unfoldable pub expected_state : PowerAction → String
expected_state on = "on"
expected_state sleep_light = "sleep"
expected_state sleep_deep = "sleep"
expected_state cycle = "on"
expected_state hibernate = "hibernate"
expected_state off = "off"
expected_state reset = "on"
expected_state reboot = "on"

abbrev pub managed_system_selector : Dict String
managed_system_selector = ("Name", "ManagedSystem") ∷ []

abbrev pub power_state_class : String
power_state_class = "CIM_AssociatedPowerManagementService"

abbrev pub power_service_class : String
power_service_class = "CIM_PowerManagementService"

-- `instance.get("PowerState", -1)`
unfoldable pub reported_state : Instance → Value
unfolding lookup
reported_state instance = elim (lookup "PowerState" instance) [
  | none ↦ number (negsuc 0)
  | some v ↦ v
]

abbrev pub power_params : PowerAction → Instance
power_params action =
    ("PowerState", number (pos (action_code action)))
    ∷ ("ManagedElement", epr "CIM_ComputerSystem" managed_system_selector)
    ∷ []

-- What the probes saw.
pub record Probed : Type 0 where
  pub probes : List PowerState
  pub observed : Option PowerState

pub record OperationReceipt : Type 0 where
  pub action : String
  pub changed : Bool
  pub previous : PowerState
  pub desired : String
  pub observed_state : Option PowerState
  pub return_value : ℕ
  pub probe_list : List PowerState

-- `except AmtError: continue`
unfoldable pub skip_amt_error : Error → Option (Option PowerState)
unfolding error_class
skip_amt_error e = elim (error_class e) [ none ↦ none | some c ↦ some none ]

abbrev pub receipt_of : PowerAction → PowerState → Probed → OperationReceipt
receipt_of action previous seen = record {
  action = concat "amt_power." (action_value action);
  changed = true;
  previous = previous;
  desired = expected_state action;
  observed_state = seen.observed;
  return_value = 0;
  probe_list = seen.probes;
}

module _ (python : Python) (client : WsmanClient) where
  unfoldable pub get_power_state : Action PowerState
  unfolding get reported_state from_cim_value
  get_power_state = get client power_state_class >>= λ instance.
      lift (ok (from_cim_value python (reported_state instance)))

  -- a probe; an AmtError is no observation
  unfoldable pub probe : Action (Option PowerState)
  unfolding get_power_state skip_amt_error
  probe = attempt skip_amt_error (get_power_state >>= λ state. lift (ok (some state)))

  -- the loop behind a probe: `continue`, `break`, or the next round
  unfoldable pub after_probe :
      String → (Probed → Action Probed) → Probed → Option PowerState → Action Probed
  after_probe expected again seen none = again seen
  after_probe expected again seen (some state) =
      let now : Probed = record { probes = seen.probes ++ state ∷ []; observed = some state } in
      if str_eq state.normalized expected then lift (ok now) else again now

  -- `poll_count` rounds at most
  unfoldable pub probe_loop : ℕ → String → Probed → Action Probed
  unfolding probe after_probe
  probe_loop zero expected seen = lift (ok seen)
  probe_loop (suc left) expected seen =
      probe >>= after_probe expected (probe_loop left expected) seen

  unfoldable pub request_power_state : ℕ → PowerAction → Action OperationReceipt
  unfolding get_power_state invoke action_code probe_loop expected_state
  request_power_state poll_count action = get_power_state >>= λ previous.
      invoke client power_service_class "RequestPowerStateChange" (power_params action) []
      >>= λ output.
          probe_loop poll_count (expected_state action) record { probes = []; observed = none }
          >>= λ seen. lift (ok (receipt_of action previous seen))
