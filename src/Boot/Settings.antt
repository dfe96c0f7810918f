-- ===== src/Boot/Settings.antt =====
-- boot.py, `_build_put_properties`: the AMT_BootSettingData that is put back.
use ansible_collection_intel.Prelude.{
  pos, Bool, false, String, List, [], ◌∷◌, lookup, insert, remove, if◌then◌else◌,
}
use ansible_collection_intel.Client.{Value, flag, number, Instance}
use ansible_collection_intel.Boot.Plan.{BootPlan, is_some}

abbrev pub delete_before_put_fields : List String
delete_before_put_fields =
    "WinREBootEnabled" ∷ "UEFILocalPBABootEnabled" ∷ "UEFIHTTPSBootEnabled"
    ∷ "SecureBootControlEnabled" ∷ "BootguardStatus" ∷ "OptionsCleared" ∷ "BIOSLastStatus"
    ∷ "UefiBootParametersArray" ∷ []

abbrev pub zero_if_present_fields : List String
zero_if_present_fields = "UefiBootNumberOfParams" ∷ []

abbrev pub optional_erase_fields : List String
optional_erase_fields = "SecureErase" ∷ "PlatformErase" ∷ []

unfoldable pub delete_fields : List String → Instance → Instance
unfolding remove
delete_fields [] d = d
delete_fields (k ∷ ks) d = delete_fields ks (remove k d)

-- Sets a value under each of the fields that `present` has.
unfoldable pub set_present : (String → Bool) → Value → List String → Instance → Instance
unfolding insert
set_present present v [] d = d
set_present present v (k ∷ ks) d = set_present present v ks (if present k then insert k v d else d)

unfoldable pub set_fields : List (String × Value) → Instance → Instance
unfolding insert
set_fields [] d = d
set_fields ((k, v) ∷ fields) d = set_fields fields (insert k v d)

abbrev pub fixed_fields : BootPlan → List (String × Value)
fixed_fields plan =
    ("ConfigurationDataReset", flag false)
    ∷ ("BIOSPause", flag false)
    ∷ ("EnforceSecureBoot", flag false)
    ∷ ("BIOSSetup", flag plan.bios_setup)
    ∷ ("BootMediaIndex", number (pos 0))
    ∷ ("FirmwareVerbosity", number (pos 0))
    ∷ ("ForcedProgressEvents", flag false)
    ∷ ("IDERBootDevice", number (pos plan.ider_boot_device))
    ∷ ("LockKeyboard", flag false)
    ∷ ("LockPowerButton", flag false)
    ∷ ("LockResetButton", flag false)
    ∷ ("LockSleepButton", flag false)
    ∷ ("ReflashBIOS", flag false)
    ∷ ("UseIDER", flag plan.use_ider)
    ∷ ("UseSOL", flag plan.use_ider)
    ∷ ("UseSafeMode", flag false)
    ∷ ("UserPasswordBypass", flag false)
    ∷ []

abbrev pub has_field : Instance → String → Bool
unfolding lookup
has_field d k = is_some (lookup k d)

-- `_build_put_properties`. There is one zeroed field, so its test on the instance without the
-- deleted fields is the loop's test.
unfoldable pub build_put_properties : Instance → BootPlan → Instance
unfolding delete_fields set_present set_fields lookup
build_put_properties read plan =
    let kept = delete_fields delete_before_put_fields read in
    let zeroed = set_present (has_field kept) (number (pos 0)) zero_if_present_fields kept in
    set_present (has_field read) (flag false) optional_erase_fields
      (set_fields (fixed_fields plan) zeroed)
