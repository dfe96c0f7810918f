-- ===== src/Power/Facts.antt =====
-- client.py: the reads of single facts, each of which degrades to `none` where the firmware does not
-- have the class. `HexText` stands for `bytes.fromhex` and `str.upper`.
use Prim.Native.Char.{code}
use Prim.Native.String.{◌++◌ as concat, count}
use ansible_collection_intel.Prelude.{
  Bool, false, ◌||◌, Option, none, some, String, List, [], ◌∷◌, ◌++◌, Bytes, take, drop, ◌==◌,
  str_eq, lookup, if◌then◌else◌,
}
use ansible_collection_intel.Errors.{ok}
use ansible_collection_intel.Client.{
  Value, null, Instance, WsmanClient, Action, ◌>>=◌, lift, attempt, get, enumerate,
}
use ansible_collection_intel.Models.{Python, get_value, optional_str, to_str}
use ansible_collection_intel.MessageLog.Decode.{hex}
use ansible_collection_intel.MessageLog.Container.{is_degradable, degrade}

pub record HexText : Type 0 where
  -- `bytes.fromhex(s)`, `none` where it raises
  pub from_hex : String → Option Bytes
  pub upper : String → String

unfoldable pub without_dashes : String → String
without_dashes String.[] = String.[]
without_dashes (String.◌∷◌ c s) =
    let rest = without_dashes s in if code c == b'-' then rest else String.◌∷◌ c rest

unfoldable pub has_dash : String → Bool
has_dash String.[] = false
has_dash (String.◌∷◌ c s) = code c == b'-' || has_dash s

unfoldable pub reverse : Bytes → Bytes
reverse [] = []
reverse (b ∷ bs) = reverse bs ++ b ∷ []

-- the five groups of a GUID, the first three little-endian
unfoldable pub guid_text : Bytes → String
unfolding hex reverse
guid_text raw = concat (hex (reverse (take 4 raw))) (
    concat "-" (
      concat (hex (reverse (take 2 (drop 4 raw)))) (
        concat "-" (
          concat (hex (reverse (take 2 (drop 6 raw)))) (
            concat "-"
              (concat (hex (take 2 (drop 8 raw))) (concat "-" (hex (take 6 (drop 10 raw))))))))))

module _ (hex_text : HexText) where
  -- the GUID of the bytes, `value` for text that is no hexadecimal
  unfoldable pub uuid_of : String → Option Bytes → String
  unfolding has_dash guid_text
  uuid_of value none = value
  uuid_of value (some raw) =
      if has_dash value then hex_text.upper value else hex_text.upper (guid_text raw)

  unfoldable pub canonical_uuid : String → String
  unfolding without_dashes uuid_of
  canonical_uuid value =
      let bare : String = without_dashes value in
      if count bare == 32 then uuid_of value (hex_text.from_hex bare) else value

-- `_get_optional`, where a missing instance and an empty one are used alike
unfoldable pub get_optional : WsmanClient → String → Action Instance
unfolding is_degradable get
get_optional client resource_class = attempt (degrade []) (get client resource_class)

unfoldable pub enumerate_optional : WsmanClient → String → Action (List Instance)
unfolding is_degradable enumerate
enumerate_optional client resource_class = attempt (degrade []) (enumerate client resource_class)

module _ (python : Python) where
  -- the first version that an instance carries
  unfoldable pub first_version : List Instance → Option String
  unfolding get_value optional_str
  first_version [] = none
  first_version (candidate ∷ candidates) =
      let rest = first_version candidates in
      elim (optional_str python (get_value "Version" candidate)) [
        | none ↦ rest
        | some version ↦ some version
      ]

  -- `str(instance.get("InstanceID", "")).strip() == "AMT"`
  unfoldable pub is_amt_identity : Instance → Bool
  unfolding lookup to_str
  is_amt_identity instance = elim (lookup "InstanceID" instance) [
    | none ↦ str_eq (python.strip "") "AMT"
    | some value ↦ str_eq (python.strip (to_str python value)) "AMT"
  ]

  -- `str(value) if value is not None else None`
  unfoldable pub str_or_none : Value → Option String
  unfolding to_str
  str_or_none null = none
  str_or_none value = some (to_str python value)

  unfoldable pub amt_version_of : List Instance → Option String
  unfolding is_amt_identity get_value str_or_none
  amt_version_of [] = none
  amt_version_of (instance ∷ instances) =
      let rest = amt_version_of instances in
      if is_amt_identity instance then str_or_none (get_value "VersionString" instance) else rest

  module _ (client : WsmanClient) where
    -- behind the Get of the BIOS element
    unfoldable pub or_enumerated_version : Option String → Action (Option String)
    unfolding enumerate_optional first_version
    or_enumerated_version (some version) = lift (ok (some version))
    or_enumerated_version none = enumerate_optional client "CIM_BIOSElement" >>= λ instances.
        lift (ok (first_version instances))

    unfoldable pub get_bios_version : Action (Option String)
    unfolding get_optional get_value optional_str or_enumerated_version
    get_bios_version = get_optional client "CIM_BIOSElement" >>= λ instance.
        or_enumerated_version (optional_str python (get_value "Version" instance))

    unfoldable pub get_amt_version : Action (Option String)
    unfolding enumerate_optional amt_version_of
    get_amt_version = enumerate_optional client "CIM_SoftwareIdentity" >>= λ instances.
        lift (ok (amt_version_of instances))

    module _ (hex_text : HexText) where
      unfoldable pub uuid_of_value : Value → Option String
      unfolding to_str canonical_uuid
      uuid_of_value null = none
      uuid_of_value value =
          let stripped : String = python.strip (to_str python value) in
          if str_eq stripped "" then none else some (canonical_uuid hex_text stripped)

      unfoldable pub get_system_uuid : Action (Option String)
      unfolding get_optional get_value uuid_of_value
      get_system_uuid = get_optional client "CIM_ComputerSystemPackage" >>= λ found.
          lift (ok (uuid_of_value (get_value "PlatformGUID" found)))
