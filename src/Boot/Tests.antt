-- ===== src/Boot/Tests.antt =====
-- boot.py against a firmware that answers every call: one capabilities instance, three sources.
use ansible_collection_intel.Prelude.{
  String, false, some, List, [], ◌∷◌, ◌≡◌, refl, lookup, str_eq, if◌then◌else◌, ◌⊎◌,
}
use ansible_collection_intel.Errors.{ok}
use ansible_collection_intel.Client.{text, Instance, WsmanClient, enumerate}
use ansible_collection_intel.Boot.Settings.{build_put_properties}
use ansible_collection_intel.Boot.Discovery.{
  discover_and_validate, check_sources, matching, is_text, only, required, truthy,
}
use ansible_collection_intel.Boot.Supported.{IsSupported, discover_and_validate-IsSupported}
use ansible_collection_intel.Boot.Plan.{BootPlan}
use ansible_collection_intel.Boot.Fields.{expected_field, lookup-build_put_properties}
use ansible_collection_intel.Boot.Arm.{arm_one_time_boot}
use ansible_collection_intel.Boot.Mutations.{IsUntouched, IsArmed, arm_one_time_boot-Outcome}

abbrev sources : List Instance
sources =
    (("InstanceID", text "Intel(r) AMT: Force PXE Boot") ∷ [])
    ∷ (("InstanceID", text "Intel(r) AMT: Force Hard-drive Boot") ∷ [])
    ∷ []

abbrev capabilities : Instance
capabilities = ("ForcePXEBoot", text "true") ∷ ("IDER", text "false") ∷ []

abbrev settings : Instance
settings =
    ("InstanceID", text "Intel(r) AMT:BootSettingData 0")
    ∷ ("OptionsCleared", text "true")
    ∷ ("SecureErase", text "true")
    ∷ []

abbrev firmware : WsmanClient
firmware = record {
  answer_enumerate =
      λ calls name. ok (if str_eq name "AMT_BootCapabilities" then capabilities ∷ [] else sources);
  answer_get = λ calls name. ok settings;
  answer_select = λ calls name selectors. ok [];
  answer_put = λ calls name properties. ok properties;
  answer_invoke = λ calls name method params selectors. ok [];
}

abbrev same : String → String
same s = s

discover_and_validate-IsSupported_example : IsSupported firmware same "pxe" []
unfolding discover_and_validate enumerate only required truthy lookup check_sources matching is_text
discover_and_validate-IsSupported_example =
    discover_and_validate-IsSupported firmware same "pxe" [] refl

arm_one_time_boot-Outcome_example :
    IsUntouched firmware same "pxe"
      (some "token")
      false
      (arm_one_time_boot firmware same "pxe" (some "token") false [])
    ⊎ IsArmed firmware same "pxe"
        (some "token")
        false
        (arm_one_time_boot firmware same "pxe" (some "token") false [])
arm_one_time_boot-Outcome_example =
    arm_one_time_boot-Outcome firmware same "pxe" (some "token") false

abbrev pxe_plan : BootPlan
pxe_plan = record {
  target = "pxe";
  boot_source_instance_id = some "Intel(r) AMT: Force PXE Boot";
  use_ider = false;
  ider_boot_device = 0;
  bios_setup = false;
}

lookup-build_put_properties_example :
    lookup "OptionsCleared" (build_put_properties settings pxe_plan)
    ≡ expected_field settings pxe_plan "OptionsCleared"
lookup-build_put_properties_example = lookup-build_put_properties settings pxe_plan "OptionsCleared"
