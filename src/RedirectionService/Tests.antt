-- ===== src/RedirectionService/Tests.antt =====
-- redirection_service.py at one firmware that supports IDE-R only.
use ansible_collection_intel.Prelude.{true, false, refl, lookup}
use ansible_collection_intel.RedirectionService.{
  RedirectionCapabilities, validate_state_change, enabled_state_of,
}
use ansible_collection_intel.RedirectionService.Change.{IsAllowed, validate_state_change-IsAllowed}

abbrev ider_only : RedirectionCapabilities
ider_only = record { ider_supported = true; sol_supported = false }

validate_state_change-IsAllowed_example : IsAllowed ider_only "ider"
unfolding validate_state_change enabled_state_of lookup
validate_state_change-IsAllowed_example = validate_state_change-IsAllowed ider_only "ider" refl
