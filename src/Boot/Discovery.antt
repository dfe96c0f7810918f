-- ===== src/Boot/Discovery.antt =====
-- boot.py, `discover_and_validate`. `_truthy` takes Python's `strip().lower()` as the parameter
-- `fold`.
use ansible_collection_intel.Prelude.{
  pos, int_eq, Bool, true, false, not, ◌||◌, Option, none, some, String, List, [], ◌∷◌, Dict,
  lookup, str_eq, if◌then◌else◌,
}
use ansible_collection_intel.Errors.{Result, ok, err, refuse, unsupported_capability, key_error}
use ansible_collection_intel.Client.{
  Value, text, flag, number, null, sequence, mapping, epr, Values, no_values, more_values, Fields,
  no_fields, more_fields, Instance, WsmanClient, Action, ◌>>=◌, ◌>>◌, lift, enumerate,
}
use ansible_collection_intel.Boot.Plan.{boot_source_instance_id_of}

abbrev pub capability_field_by_target : Dict String
capability_field_by_target =
    ("pxe", "ForcePXEBoot")
    ∷ ("hdd", "ForceHardDriveBoot")
    ∷ ("cd", "ForceCDorDVDBoot")
    ∷ ("bios", "BIOSSetup")
    ∷ ("ider_floppy", "IDER")
    ∷ ("ider_cdrom", "IDER")
    ∷ []

any_values : Values → Bool
any_values no_values = false
any_values (more_values v vs) = true

any_fields : Fields → Bool
any_fields no_fields = false
any_fields (more_fields k v fs) = true

-- `_truthy`, of `capabilities.get(field)`
unfoldable pub truthy : (String → String) → Option Value → Bool
unfolding any_values any_fields
truthy fold none = false
truthy fold (some (flag b)) = b
truthy fold (some (text s)) = str_eq (fold s) "true" || str_eq (fold s) "1"
truthy fold (some (number n)) = not (int_eq n (pos 0))
truthy fold (some null) = false
truthy fold (some (sequence vs)) = any_values vs
truthy fold (some (mapping fs)) = any_fields fs
truthy fold (some (epr name selectors)) = true

unfoldable pub is_text : String → Option Value → Bool
is_text s (some (text t)) = str_eq t s
is_text s _ = false

-- The instances whose InstanceID is the expected one.
unfoldable pub matching : String → List Instance → List Instance
unfolding is_text lookup
matching id [] = []
matching id (source ∷ sources) =
    let rest = matching id sources in
    if is_text id (lookup "InstanceID" source) then source ∷ rest else rest

unfoldable pub required {ℓ} : {A : Type ℓ} → Option A → Result A
required none = err key_error
required (some a) = ok a

-- `if len(instances) != 1: raise`, and the instance
unfoldable pub only {ℓ} : {A : Type ℓ} → List A → Result A
only [] = err unsupported_capability
only (x ∷ []) = ok x
only (x ∷ (y ∷ ys)) = err unsupported_capability

unfoldable pub check_sources : WsmanClient → Option String → Action (Unit {0})
unfolding enumerate matching only
check_sources client none = lift (ok tt)
check_sources client (some id) = do
  sources ← enumerate client "CIM_BootSourceSetting"
  source ← lift (only (matching id sources))
  lift (ok tt)

-- `discover_and_validate`
unfoldable pub discover_and_validate : WsmanClient → (String → String) → String → Action (Unit {0})
unfolding enumerate only required truthy lookup check_sources
discover_and_validate client fold target = do
  instances ← enumerate client "AMT_BootCapabilities"
  capabilities ← lift (only instances)
  field ← lift (required (lookup target capability_field_by_target))
  lift (refuse (not (truthy fold (lookup field capabilities))) unsupported_capability)
  check_sources client (lookup target boot_source_instance_id_of)
