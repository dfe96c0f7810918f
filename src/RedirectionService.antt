-- ===== src/RedirectionService.antt =====
-- redirection_service.py, and models.py class RedirectionState: the WS-Man side of redirection.
-- `fold` is Python's `strip().lower()`, `to_int` is `int(…)`, `none` where it raises.
mod Tests
pub mod Change
use ansible_collection_intel.Prelude.{
  ℤ, pos, negsuc, ℕ, Bool, true, false, not, ◌&&◌, ◌||◌, Option, none, some, String, List, [], ◌∷◌,
  ◌==◌, Dict, lookup, str_eq,
}
use ansible_collection_intel.Errors.{Result, ok, err, refuse, unsupported_capability, value_error}
use ansible_collection_intel.Client.{
  Value, number, Instance, WsmanClient, Action, ◌>>=◌, ◌>>◌, lift, enumerate, get, invoke,
}
use ansible_collection_intel.Boot.Discovery.{truthy, only}

abbrev enabled_state_disabled : ℕ
enabled_state_disabled = 32768

abbrev enabled_state_ider_only : ℕ
enabled_state_ider_only = 32769

abbrev enabled_state_sol_only : ℕ
enabled_state_sol_only = 32770

abbrev enabled_state_both : ℕ
enabled_state_both = 32771

abbrev pub state_name_to_enabled_state : Dict ℕ
state_name_to_enabled_state =
    ("disabled", enabled_state_disabled)
    ∷ ("ider", enabled_state_ider_only)
    ∷ ("sol", enabled_state_sol_only)
    ∷ ("all", enabled_state_both)
    ∷ []

pub record RedirectionCapabilities : Type 0 where
  pub ider_supported : Bool
  pub sol_supported : Bool

pub record RedirectionState : Type 0 where
  pub enabled_state : ℤ
  pub listener_enabled : Bool
  pub ider_enabled : Bool
  pub sol_enabled : Bool

abbrev pub RedirectionStatus : Type 0
RedirectionStatus = RedirectionCapabilities × RedirectionState × List (ℕ × Bool)

-- `state in (a, b)`
unfoldable pub is_one_of : ℕ → ℕ → ℤ → Bool
is_one_of a b (pos n) = n == a || n == b
is_one_of a b (negsuc n) = false

abbrev or_minus_one : Option ℤ → ℤ
or_minus_one none = negsuc 0
or_minus_one (some i) = i

-- `RedirectionState.from_enabled_state`, of what `int(…)` comes to
unfoldable pub from_enabled_state : Option ℤ → Bool → RedirectionState
unfolding is_one_of
from_enabled_state parsed listener_enabled = record {
  enabled_state = or_minus_one parsed;
  listener_enabled = listener_enabled;
  ider_enabled = is_one_of 32769 32771 (or_minus_one parsed);
  sol_enabled = is_one_of 32770 32771 (or_minus_one parsed);
}

-- `get_capabilities`
unfoldable pub get_capabilities : WsmanClient → (String → String) → Action RedirectionCapabilities
unfolding enumerate only truthy lookup
get_capabilities client fold = do
  instances ← enumerate client "AMT_BootCapabilities"
  capabilities ← lift (only instances)
  lift (
      ok (record {
        ider_supported = truthy fold (lookup "IDER" capabilities);
        sol_supported = truthy fold (lookup "SOL" capabilities);
      }))

-- `int(instance.get("EnabledState", -1))`
unfoldable pub parsed_state : (Value → Option ℤ) → Option Value → Option ℤ
parsed_state to_int none = some (negsuc 0)
parsed_state to_int (some v) = to_int v

-- `get_state`
unfoldable pub get_state :
    WsmanClient → (String → String) → (Value → Option ℤ) → Action RedirectionState
unfolding get truthy lookup parsed_state from_enabled_state
get_state client fold to_int = do
  service ← get client "AMT_RedirectionService"
  lift (
      ok (
        from_enabled_state (parsed_state to_int (lookup "EnabledState" service))
          (truthy fold (lookup "ListenerEnabled" service))))

-- `probe_transport_reachable`, over the ports that accept a connection
unfoldable pub probe_transport_reachable : (ℕ → Bool) → List ℕ → List (ℕ × Bool)
probe_transport_reachable connect [] = []
probe_transport_reachable connect (port ∷ ports) =
    (port, connect port) ∷ probe_transport_reachable connect ports

-- `get_status`
unfoldable pub get_status :
    WsmanClient
    → (String → String)
    → (Value → Option ℤ)
    → (ℕ → Bool)
    → List ℕ
    → Action RedirectionStatus
unfolding get_capabilities get_state probe_transport_reachable
get_status client fold to_int connect ports = do
  capabilities ← get_capabilities client fold
  state ← get_state client fold to_int
  lift (ok (capabilities, state, probe_transport_reachable connect ports))

-- `STATE_NAME_TO_ENABLED_STATE[state_name]`, guarded as in the two functions below
unfoldable pub enabled_state_of : Option ℕ → Result ℕ
enabled_state_of none = err value_error
enabled_state_of (some n) = ok n

-- `validate_state_change`
unfoldable pub validate_state_change : RedirectionCapabilities → String → Result (Unit {0})
unfolding enabled_state_of lookup
validate_state_change capabilities name =
    ansible_collection_intel.Errors.◌>>=◌
      (enabled_state_of (lookup name state_name_to_enabled_state))
      (λ n.
        ansible_collection_intel.Errors.◌>>◌
          (refuse ((str_eq "ider" name || str_eq "all" name) && not capabilities.ider_supported)
            unsupported_capability)
          (refuse ((str_eq "sol" name || str_eq "all" name) && not capabilities.sol_supported)
            unsupported_capability))

-- `request_state_change`
unfoldable pub request_state_change : WsmanClient → String → Action Instance
unfolding enabled_state_of lookup invoke
request_state_change client name = do
  requested ← lift (enabled_state_of (lookup name state_name_to_enabled_state))
  invoke client "AMT_RedirectionService" "RequestStateChange"
      (("RequestedState", number (pos requested)) ∷ []) []
