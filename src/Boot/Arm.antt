-- ===== src/Boot/Arm.antt =====
-- boot.py, `arm_one_time_boot`: the five steps, run against a client.
use ansible_collection_intel.Prelude.{
  pos, ℕ, Bool, true, false, Option, none, some, String, [], ◌∷◌, Dict, str_eq,
}
use ansible_collection_intel.Errors.{ok, refuse, invalid_state}
use ansible_collection_intel.Client.{
  Value, number, null, epr, Instance, WsmanClient, Action, ◌>>=◌, ◌>>◌, lift, get, put, invoke,
}
use ansible_collection_intel.Boot.Plan.{BootPlan, build_boot_plan}
use ansible_collection_intel.Boot.Discovery.{discover_and_validate}
use ansible_collection_intel.Boot.Settings.{build_put_properties}

abbrev boot_config_instance_id : String
boot_config_instance_id = "Intel(r) AMT: Boot Configuration 0"

-- BOOT_CONFIG_ROLE_NEXT_SINGLE_USE
abbrev boot_config_role : ℕ
boot_config_role = 1

pub record BootArmResult : Type 0 where
  pub plan : BootPlan
  pub previous : Instance
  pub put_properties : Instance
  pub observed : Instance
  pub boot_config_selector : Dict String
  pub boot_source_selector : Option (Dict String)
  pub mutated : Bool

abbrev pub config_selector : Dict String
config_selector = ("InstanceID", boot_config_instance_id) ∷ []

abbrev pub source_selector : Option String → Option (Dict String)
source_selector none = none
source_selector (some id) = some (("InstanceID", id) ∷ [])

-- The `Source` of step 5.
abbrev pub source_param : Option (Dict String) → Value
source_param none = null
source_param (some selector) = epr "CIM_BootSourceSetting" selector

abbrev pub role_params : Instance
role_params =
    ("BootConfigSetting", epr "CIM_BootConfigSetting" config_selector)
    ∷ ("Role", number (pos boot_config_role))
    ∷ []

abbrev pub arm_result : BootPlan → Instance → Instance → Instance → Bool → BootArmResult
arm_result plan previous properties observed mutated = record {
  plan = plan;
  previous = previous;
  put_properties = properties;
  observed = observed;
  boot_config_selector = config_selector;
  boot_source_selector = source_selector plan.boot_source_instance_id;
  mutated = mutated;
}

-- `if check_mode: return`, and steps 2 to 5
unfoldable pub arm_steps :
    WsmanClient → BootPlan → Instance → Instance → Bool → Action BootArmResult
unfolding invoke put get
arm_steps client plan previous properties true =
    lift (ok (arm_result plan previous properties previous false))
arm_steps client plan previous properties false = do
  cleared ←
      invoke client "CIM_BootConfigSetting" "ChangeBootOrder" (("Source", null) ∷ [])
        config_selector
  stored ← put client "AMT_BootSettingData" properties
  role ← invoke client "CIM_BootService" "SetBootConfigRole" role_params []
  ordered ←
      invoke client "CIM_BootConfigSetting" "ChangeBootOrder"
        (("Source", source_param (source_selector plan.boot_source_instance_id)) ∷ [])
        config_selector
  observed ← get client "AMT_BootSettingData"
  lift (ok (arm_result plan previous properties observed true))

-- `not action_token`
unfoldable pub no_token : Option String → Bool
no_token none = true
no_token (some s) = str_eq s ""

-- `arm_one_time_boot`
unfoldable pub arm_one_time_boot :
    WsmanClient → (String → String) → String → Option String → Bool → Action BootArmResult
unfolding no_token build_boot_plan discover_and_validate get build_put_properties arm_steps
arm_one_time_boot client fold target action_token check_mode = do
  lift (refuse (no_token action_token) invalid_state)
  plan ← lift (build_boot_plan target)
  discover_and_validate client fold target
  previous ← get client "AMT_BootSettingData"
  arm_steps client plan previous (build_put_properties previous plan) check_mode
