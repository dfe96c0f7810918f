-- ===== src/Boot/Fields.antt =====
-- boot.py `_build_put_properties`: every field of the instance that is put back, described on its
-- own, whatever the order of the assignments.
use ansible_collection_intel.Prelude.{
  pos, Bool, false, ◌||◌, ◌&&◌, Option, none, some, String, List, [], ◌∷◌, ◌≡◌, refl, ap, ◌∙◌,
  lookup, insert, remove, lookup-insert, lookup-remove, str_eq, if◌then◌else◌, eq_iff, arith, inl,
  inr, Bool-cases,
}
use ansible_collection_intel.Client.{Value, flag, number, Instance}
use ansible_collection_intel.Boot.Plan.{BootPlan, is_some}
use ansible_collection_intel.Boot.Settings.{
  delete_fields, set_present, set_fields, has_field, build_put_properties,
}

abbrev pub in_fields : String → List String → Bool
in_fields key [] = false
in_fields key (k ∷ ks) = str_eq k key || in_fields key ks

-- The value that the last assignment to a field gives it.
abbrev pub assigned : String → List (String × Value) → Option Value
assigned key [] = none
assigned key ((k, v) ∷ fields) =
    let rest = assigned key fields in
    if is_some rest then rest else if str_eq k key then some v else none

abbrev pub or_else : Option Value → Option Value → Option Value
or_else (some v) o = some v
or_else none o = o

-- The lists of docs/protocol-notes.md, 2.5 step 3: what must be deleted before the Put, what is
-- zeroed and what is false if it is present, and what is set in any case.
abbrev pub documented_deletions : List String
documented_deletions =
    "WinREBootEnabled" ∷ "UEFILocalPBABootEnabled" ∷ "UEFIHTTPSBootEnabled"
    ∷ "SecureBootControlEnabled" ∷ "BootguardStatus" ∷ "OptionsCleared" ∷ "BIOSLastStatus"
    ∷ "UefiBootParametersArray" ∷ []

abbrev pub documented_zeros : List String
documented_zeros = "UefiBootNumberOfParams" ∷ []

abbrev pub documented_erases : List String
documented_erases = "SecureErase" ∷ "PlatformErase" ∷ []

abbrev pub documented_settings : BootPlan → List (String × Value)
documented_settings plan =
    ("ConfigurationDataReset", flag false)
    ∷ ("BIOSPause", flag false)
    ∷ ("EnforceSecureBoot", flag false)
    ∷ ("BIOSSetup", flag plan.bios_setup)
    ∷ ("BootMediaIndex", number (pos 0))
    ∷ ("FirmwareVerbosity", number (pos 0))
    ∷ ("ForcedProgressEvents", flag false)
    ∷ ("IDERBootDevice", number (pos plan.ider_boot_device))
    ∷ ("LockKeyboard", flag false)
    ∷ ("LockPowerButton", flag false)
    ∷ ("LockResetButton", flag false)
    ∷ ("LockSleepButton", flag false)
    ∷ ("ReflashBIOS", flag false)
    ∷ ("UseIDER", flag plan.use_ider)
    ∷ ("UseSOL", flag plan.use_ider)
    ∷ ("UseSafeMode", flag false)
    ∷ ("UserPasswordBypass", flag false)
    ∷ []

-- What a field is after the deletions.
abbrev pub kept_field : Instance → String → Option Value
unfolding lookup
kept_field read key = if in_fields key documented_deletions then none else lookup key read

-- What a field is after the zeroing.
abbrev pub zeroed_field : Instance → String → Option Value
unfolding kept_field
zeroed_field read key =
    if in_fields key documented_zeros && is_some (kept_field read key)
    then some (number (pos 0))
    else kept_field read key

-- What a field ought to be in the instance that is put back.
abbrev pub expected_field : Instance → BootPlan → String → Option Value
unfolding zeroed_field lookup
expected_field read plan key =
    if in_fields key documented_erases && is_some (lookup key read)
    then some (flag false)
    else or_else (assigned key (documented_settings plan)) (zeroed_field read key)

lookup-delete_fields :
    (key : String) (ks : List String) (d : Instance)
    → lookup key (delete_fields ks d) ≡ (if in_fields key ks then none else lookup key d)
unfolding delete_fields
lookup-delete_fields key [] d = refl
lookup-delete_fields key (k ∷ ks) d =
    lookup-delete_fields key ks (remove k d) ∙ ground (arith, lookup-remove k key d)

lookup-set_fields :
    (key : String) (fields : List (String × Value)) (d : Instance)
    → lookup key (set_fields fields d) ≡ or_else (assigned key fields) (lookup key d)
unfolding set_fields
lookup-set_fields key [] d = refl
lookup-set_fields key ((k, v) ∷ fields) d =
    lookup-set_fields key fields (insert k v d) ∙ by_rest (assigned key fields)
  where
    by_rest :
        (o : Option Value)
        → or_else o (lookup key (insert k v d))
          ≡ or_else (if is_some o then o else if str_eq k key then some v else none) (lookup key d)
    by_rest (some w) = refl
    by_rest none = ground (arith, lookup-insert k key v d)

lookup-set_present :
    (key : String) (present : String → Bool) (v : Value) (ks : List String) (d : Instance)
    → lookup key (set_present present v ks d)
      ≡ (if in_fields key ks && present key then some v else lookup key d)
unfolding set_present
lookup-set_present key present v [] d = refl
lookup-set_present key present v (k ∷ ks) d =
    lookup-set_present key present v ks (if present k then insert k v d else d)
    ∙ elim (Bool-cases (str_eq k key)) [
      | inl e ↦
          let same : present k ≡ present key = ap present ((eq_iff k key).0 e) in
          ground (arith, lookup-insert k key v d, e, same)
      | inr e ↦ ground (arith, lookup-insert k key v d, e)
    ]

-- The same for any four tables.
lookup-rebuilt :
    (dels zeros erases : List String) (fields : List (String × Value)) (read : Instance)
    (key : String)
    → lookup key (
        set_present (has_field read) (flag false) erases (
          set_fields fields (
            set_present
              (has_field (delete_fields dels read))
              (number (pos 0))
              zeros
              (delete_fields dels read))))
      ≡ (let kept = if in_fields key dels then none else lookup key read in
          if in_fields key erases && is_some (lookup key read)
          then some (flag false)
          else or_else
              (assigned key fields)
              (if in_fields key zeros && is_some kept then some (number (pos 0)) else kept))
unfolding lookup
lookup-rebuilt dels zeros erases fields read key =
    lookup-set_present key (has_field read) (flag false) erases _
    ∙ ap (λ o. if in_fields key erases && is_some (lookup key read) then some (flag false) else o)
        (lookup-set_fields key fields _
          ∙ ap (or_else (assigned key fields)) (
              lookup-set_present key (has_field (delete_fields dels read)) (number (pos 0)) zeros
                (delete_fields dels read)
              ∙ ap (λ o. if in_fields key zeros && is_some o then some (number (pos 0)) else o)
                  (lookup-delete_fields key dels read)))

-- Every field of the instance put back, for any instance read and any plan, by the lists of
-- docs/protocol-notes.md: a present erase field is false; else the setting listed for it decides; else
-- it is absent if it must be deleted, zero if it is to be zeroed and present, and else what was read.
pub lookup-build_put_properties :
    (read : Instance) (plan : BootPlan) (key : String)
    → lookup key (build_put_properties read plan) ≡ expected_field read plan key
unfolding build_put_properties
lookup-build_put_properties read plan key =
    lookup-rebuilt documented_deletions documented_zeros documented_erases
      (documented_settings plan) read key
