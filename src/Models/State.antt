-- ===== src/Models/State.antt =====
-- models.py: PowerState, EthernetSettings and SystemState, read from decoded instances.
use Prim.Native.Char.{Char, code}
use Prim.Native.String.{count}
use ansible_collection_intel.Prelude.{
  ℤ, pos, negsuc, Bool, true, false, ◌||◌, Option, none, some, String, List, [], ◌∷◌, ◌++◌, ◌==◌,
  map, map_option, if◌then◌else◌,
}
use ansible_collection_intel.Client.{Value, text, flag, number, null, mapping, Instance}
use ansible_collection_intel.Models.{
  Python, get_value, get_field, candidates_of, entry_of, is_blank, optional_bool, optional_int,
  optional_str, kept, decode, power_state_table, enabled_state_table, operational_status_table,
  link_policy_table,
}

pub record PowerState : Type 0 where
  pub normalized : String
  pub raw : ℤ

pub record EthernetSettings : Type 0 where
  pub mac_address : Option String
  pub mac_address_raw : Option String
  pub ip_address : Option String
  pub subnet_mask : Option String
  pub default_gateway : Option String
  pub primary_dns : Option String
  pub secondary_dns : Option String
  pub dhcp_enabled : Option Bool
  pub link_is_up : Option Bool
  pub ip_sync_enabled : Option Bool
  pub link_policy : Option (List ℤ)
  pub link_policy_names : Option (List String)
  pub wake_on_lan_capable : Option Bool

pub record SystemState : Type 0 where
  pub element_name : Option String
  pub enabled_state : Option ℤ
  pub enabled_state_text : Option String
  pub requested_state : Option ℤ
  pub operational_status : Option (List ℤ)
  pub operational_status_text : Option (List String)

-- a value of `_LINK_POLICY_SX_VALUES`
unfoldable pub is_sx : ℤ → Bool
is_sx (pos n) = n == 14 || n == 224
is_sx (negsuc n) = false

unfoldable pub any {ℓ} : {A : Type ℓ} → (A → Bool) → List A → Bool
any test [] = false
any test (x ∷ xs) = test x || any test xs

is_separator : Char → Bool
is_separator c = code c == b'-' || code c == b':' || code c == b'.'

-- `text.replace("-", "").replace(":", "").replace(".", "")`
unfoldable pub compact : String → String
unfolding is_separator
compact String.[] = String.[]
compact (String.◌∷◌ c s) =
    let rest = compact s in if is_separator c then rest else String.◌∷◌ c rest

-- `":".join(s[i : i + 2] for i in range(0, 12, 2))`, of twelve characters
unfoldable pub colon_pairs : String → String
colon_pairs String.[] = String.[]
colon_pairs (String.◌∷◌ c String.[]) = String.◌∷◌ c String.[]
colon_pairs (String.◌∷◌ c (String.◌∷◌ d String.[])) = String.◌∷◌ c (String.◌∷◌ d String.[])
colon_pairs (String.◌∷◌ c (String.◌∷◌ d s)) =
    String.◌∷◌ c (String.◌∷◌ d (String.◌∷◌ ":" (colon_pairs s)))

module _ (python : Python) where
  unfoldable pub normalize_mac : String → String
  unfolding compact colon_pairs
  normalize_mac value =
      let stripped : String = python.strip value in
      let bare : String = compact stripped in
      if count bare == 12
      then (if python.is_hex bare then colon_pairs (python.lower bare) else stripped)
      else stripped

  -- `int(value)`, `none` where it raises
  unfoldable pub int_of : Value → Option ℤ
  int_of (text s) = python.parse_int s
  int_of (number n) = some n
  int_of (flag true) = some (pos 1)
  int_of (flag false) = some (pos 0)
  int_of value = none

  -- `PowerState.from_cim_value`
  unfoldable pub from_cim_value : Value → PowerState
  unfolding int_of entry_of
  from_cim_value value = elim (int_of value) [
    | none ↦ record { normalized = "unknown"; raw = negsuc 0 }
    | some raw ↦ record {
      normalized = elim (entry_of power_state_table raw) [ none ↦ "unknown" | some s ↦ s ];
      raw = raw;
    }
  ]

  -- one candidate of a LinkPolicy
  unfoldable pub policy_values : Value → List ℤ
  unfolding kept candidates_of get_field optional_int
  policy_values (mapping items) =
      kept python (optional_int python) (candidates_of (get_field "PolicyValue" items))
  policy_values value = kept python (optional_int python) (value ∷ [])

  unfoldable pub all_policy_values : List Value → List ℤ
  unfolding policy_values
  all_policy_values [] = []
  all_policy_values (candidate ∷ candidates) =
      policy_values candidate ++ all_policy_values candidates

  unfoldable pub link_policy_values : Value → Option (List ℤ)
  unfolding is_blank all_policy_values candidates_of
  link_policy_values null = none
  link_policy_values (text s) =
      some (if is_blank python s then [] else all_policy_values (text s ∷ []))
  link_policy_values value = some (all_policy_values (candidates_of value))

  -- `EthernetSettings.from_instance`
  unfoldable pub ethernet_settings : Instance → EthernetSettings
  unfolding get_value optional_str optional_bool link_policy_values normalize_mac decode is_sx any
  ethernet_settings instance =
      let raw_mac : Option String = optional_str python (get_value "MACAddress" instance) in
      let policies : Option (List ℤ) = link_policy_values (get_value "LinkPolicy" instance) in
      record {
        mac_address = map_option normalize_mac raw_mac;
        mac_address_raw = raw_mac;
        ip_address = optional_str python (get_value "IPAddress" instance);
        subnet_mask = optional_str python (get_value "SubnetMask" instance);
        default_gateway = optional_str python (get_value "DefaultGateway" instance);
        primary_dns = optional_str python (get_value "PrimaryDNS" instance);
        secondary_dns = optional_str python (get_value "SecondaryDNS" instance);
        dhcp_enabled = optional_bool python (get_value "DHCPEnabled" instance);
        link_is_up = optional_bool python (get_value "LinkIsUp" instance);
        ip_sync_enabled = optional_bool python (get_value "IpSyncEnabled" instance);
        link_policy = policies;
        link_policy_names = map_option (map (decode python link_policy_table)) policies;
        wake_on_lan_capable = map_option (any is_sx) policies;
      }

  -- the integers of a property that may be one value or several, `none` where it is absent
  unfoldable pub optional_ints : Value → Option (List ℤ)
  unfolding kept optional_int candidates_of
  optional_ints null = none
  optional_ints value = some (kept python (optional_int python) (candidates_of value))

  -- `SystemState.from_instance`
  unfoldable pub system_state : Instance → SystemState
  unfolding get_value optional_str optional_int optional_ints decode
  system_state instance =
      let enabled_state : Option ℤ = optional_int python (get_value "EnabledState" instance) in
      let statuses : Option (List ℤ) = optional_ints (get_value "OperationalStatus" instance) in
      record {
        element_name = optional_str python (get_value "ElementName" instance);
        enabled_state = enabled_state;
        enabled_state_text = map_option (decode python enabled_state_table) enabled_state;
        requested_state = optional_int python (get_value "RequestedState" instance);
        operational_status = statuses;
        operational_status_text =
            map_option (map (decode python operational_status_table)) statuses;
      }
