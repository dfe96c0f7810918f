-- ===== src/Power/Gather.antt =====
-- client.py: `get_facts` with the default subset, which reads no hardware class.
use ansible_collection_intel.Prelude.{
  ℤ, negsuc, Bool, true, false, Option, none, some, String, [], ◌∷◌, Dict, map_option, lookup,
}
use ansible_collection_intel.Errors.{ok}
use ansible_collection_intel.Client.{
  Value, null, Instance, WsmanClient, Action, ◌>>=◌, lift, attempt, get, select,
}
use ansible_collection_intel.Models.{
  Python, get_value, truthy, optional_bool, optional_int, optional_str,
}
use ansible_collection_intel.Models.State.{
  PowerState, EthernetSettings, SystemState, int_of, from_cim_value, ethernet_settings,
  system_state,
}
use ansible_collection_intel.MessageLog.Container.{is_degradable, degrade}
use ansible_collection_intel.RedirectionService.{RedirectionState, from_enabled_state}
use ansible_collection_intel.Power.Request.{managed_system_selector}
use ansible_collection_intel.Power.Facts.{
  HexText, get_optional, get_bios_version, get_amt_version, get_system_uuid,
}

pub record AmtCapabilities : Type 0 where
  pub power : Bool
  pub boot_once_pxe : Bool
  pub sol : Bool
  pub storage_redirection : Bool

pub record AmtFacts : Type 0 where
  pub version : Option String
  pub uuid : Option String
  pub control_mode : Value
  pub provisioning_state : Value
  pub power_state : Option PowerState
  pub reported_hostname : Value
  pub capabilities : AmtCapabilities
  pub redirection : Option RedirectionState
  pub reported_domain_name : Option String
  pub idle_wake_timeout : Option ℤ
  pub ping_response_enabled : Option Bool
  pub rmcp_ping_response_enabled : Option Bool
  pub network_interface_enabled : Option Bool
  pub ddns_update_enabled : Option Bool
  pub network : Option EthernetSettings
  pub system : Option SystemState
  pub bios_version : Option String

-- What was read from the five classes that come first.
pub record Sources : Type 0 where
  pub general : Instance
  pub setup : Instance
  pub power_assoc : Instance
  pub boot_caps : Instance
  pub redirection_service : Option Instance

abbrev pub ethernet_port_0_selector : Dict String
ethernet_port_0_selector = ("InstanceID", "Intel(r) AMT Ethernet Port Settings 0") ∷ []

abbrev pub is_some {ℓ} : {A : Type ℓ} → Option A → Bool
is_some none = false
is_some (some a) = true

-- `if not instance: return None`
abbrev pub unless_empty {ℓ} : {A : Type ℓ} → (Instance → A) → Instance → Option A
unless_empty build [] = none
unless_empty build (property ∷ properties) = some (build (property ∷ properties))

-- `_get_optional`, where `None` is told from an empty instance
unfoldable pub get_if_any : WsmanClient → String → Action (Option Instance)
unfolding is_degradable get
get_if_any client resource_class =
    attempt (degrade none) (get client resource_class >>= λ instance. lift (ok (some instance)))

-- `_get_optional` with a selector
unfoldable pub select_optional : WsmanClient → String → Dict String → Action Instance
unfolding is_degradable select
select_optional client resource_class selectors =
    attempt (degrade []) (select client resource_class selectors)

module _ (python : Python) where
  -- the reported power state, of the value of `PowerState`
  unfoldable pub state_of_value : Value → Option PowerState
  unfolding from_cim_value
  state_of_value null = none
  state_of_value value = some (from_cim_value python value)

  -- `redirection.get("EnabledState", -1)` as an integer, `none` where `int` raises
  unfoldable pub enabled_state_of : Instance → Option ℤ
  unfolding lookup int_of
  enabled_state_of instance = elim (lookup "EnabledState" instance) [
    | none ↦ some (negsuc 0)
    | some value ↦ int_of python value
  ]

  unfoldable pub redirection_of : Instance → RedirectionState
  unfolding enabled_state_of from_enabled_state get_value truthy
  redirection_of instance =
      from_enabled_state (enabled_state_of instance)
        (truthy python (get_value "ListenerEnabled" instance))

  unfoldable pub capabilities_of : Option PowerState → Instance → AmtCapabilities
  unfolding get_value truthy
  capabilities_of power_state boot_caps = record {
    power = is_some power_state;
    boot_once_pxe = truthy python (get_value "ForcePXEBoot" boot_caps);
    sol = truthy python (get_value "SOL" boot_caps);
    storage_redirection = truthy python (get_value "IDER" boot_caps);
  }

  unfoldable pub facts_of :
      Sources → Option String → Option String → Instance → Instance → Option String → AmtFacts
  unfolding get_value state_of_value capabilities_of redirection_of optional_str optional_int
      optional_bool ethernet_settings system_state
  facts_of sources version uuid network_instance system_instance bios_version =
      let power_state : Option PowerState =
        state_of_value (get_value "PowerState" sources.power_assoc) in
      record {
        version = version;
        uuid = uuid;
        control_mode = get_value "ProvisioningMode" sources.setup;
        provisioning_state = get_value "ProvisioningState" sources.setup;
        power_state = power_state;
        reported_hostname = get_value "HostName" sources.general;
        capabilities = capabilities_of power_state sources.boot_caps;
        redirection = map_option redirection_of sources.redirection_service;
        reported_domain_name = optional_str python (get_value "DomainName" sources.general);
        idle_wake_timeout = optional_int python (get_value "IdleWakeTimeout" sources.general);
        ping_response_enabled =
            optional_bool python (get_value "PingResponseEnabled" sources.general);
        rmcp_ping_response_enabled =
            optional_bool python (get_value "RmcpPingResponseEnabled" sources.general);
        network_interface_enabled =
            optional_bool python (get_value "NetworkInterfaceEnabled" sources.general);
        ddns_update_enabled = optional_bool python (get_value "DDNSUpdateEnabled" sources.general);
        network = unless_empty (ethernet_settings python) network_instance;
        system = unless_empty (system_state python) system_instance;
        bios_version = bios_version;
      }

  module _ (client : WsmanClient) (hex_text : HexText) where
    unfoldable pub read_sources : Action Sources
    unfolding get_optional get_if_any
    read_sources = get_optional client "AMT_GeneralSettings" >>= λ general.
        get_optional client "AMT_SetupAndConfigurationService" >>= λ setup.
        get_optional client "CIM_AssociatedPowerManagementService" >>= λ power_assoc.
        get_optional client "AMT_BootCapabilities" >>= λ boot_caps.
        get_if_any client "AMT_RedirectionService" >>= λ redirection. lift (
          ok record {
            general = general;
            setup = setup;
            power_assoc = power_assoc;
            boot_caps = boot_caps;
            redirection_service = redirection;
          })

    unfoldable pub get_facts : Action AmtFacts
    unfolding read_sources get_amt_version get_system_uuid select_optional get_bios_version facts_of
    get_facts = read_sources >>= λ sources. get_amt_version python client >>= λ version.
        get_system_uuid python client hex_text >>= λ uuid.
        select_optional client "AMT_EthernetPortSettings" ethernet_port_0_selector >>= λ network.
        select_optional client "CIM_ComputerSystem" managed_system_selector >>= λ system.
        get_bios_version python client >>= λ bios_version.
        lift (ok (facts_of sources version uuid network system bios_version))
