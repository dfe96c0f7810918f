-- ===== src/Models.antt =====
-- models.py: what a property of a decoded instance, whose shape is the firmware's choice, is read
-- as, and the tables of the CIM values. `Python` stands for the functions on text of Python's
-- builtins.
pub mod State
pub mod Reported
pub mod Sample
mod Tests
use Prim.Native.String.{◌++◌ as concat}
use ansible_collection_intel.Prelude.{
  ℕ, ℤ, pos, negsuc, Bool, true, false, ◌||◌, Option, none, some, String, List, [], ◌∷◌, ◌==◌,
  lookup, str_eq, if◌then◌else◌,
}
use ansible_collection_intel.Client.{
  Value, text, flag, number, null, sequence, mapping, epr, Values, no_values, more_values, Fields,
  no_fields, more_fields, Instance,
}

pub record Python : Type 0 where
  pub strip : String → String
  pub lower : String → String
  -- `int(s)`, `none` for its `ValueError`
  pub parse_int : String → Option ℤ
  -- whether `int(s, 16)` returns
  pub is_hex : String → Bool
  -- `str(n)`
  pub show_int : ℤ → String
  -- `str(v)` of a list, a dictionary or an endpoint reference
  pub show_value : Value → String

-- `instance.get(name)`, where `None` and a missing key are one
unfoldable pub get_value : String → Instance → Value
unfolding lookup
get_value name instance = elim (lookup name instance) [ none ↦ null | some v ↦ v ]

unfoldable pub elements : Values → List Value
elements no_values = []
elements (more_values v vs) = v ∷ elements vs

-- `nested.get(name)`
unfoldable pub get_field : String → Fields → Value
get_field name no_fields = null
get_field name (more_fields k v items) = if str_eq k name then v else get_field name items

-- `value if isinstance(value, list) else [value]`
unfoldable pub candidates_of : Value → List Value
unfolding elements
candidates_of (sequence vs) = elements vs
candidates_of value = value ∷ []

-- `table.get(value)`, of a table keyed by numbers
unfoldable pub entry {ℓ} : {A : Type ℓ} → List (ℕ × A) → ℕ → Option A
entry [] value = none
entry ((code, name) ∷ table) value = if code == value then some name else entry table value

unfoldable pub entry_of {ℓ} : {A : Type ℓ} → List (ℕ × A) → ℤ → Option A
unfolding entry
entry_of table (pos n) = entry table n
entry_of table (negsuc n) = none

module _ (python : Python) where
  -- `str(value)`
  unfoldable pub to_str : Value → String
  to_str (text s) = s
  to_str (flag true) = "True"
  to_str (flag false) = "False"
  to_str (number n) = python.show_int n
  to_str null = "None"
  to_str value = python.show_value value

  unfoldable pub says_true : String → Bool
  says_true s = str_eq s "true" || str_eq s "1" || str_eq s "yes"

  unfoldable pub truthy : Value → Bool
  unfolding to_str says_true
  truthy (flag b) = b
  truthy null = false
  truthy value = says_true (python.lower (python.strip (to_str value)))

  unfoldable pub is_blank : String → Bool
  is_blank s = str_eq (python.strip s) ""

  unfoldable pub optional_bool : Value → Option Bool
  unfolding truthy is_blank
  optional_bool null = none
  optional_bool (text s) = if is_blank s then none else some (truthy (text s))
  optional_bool value = some (truthy value)

  unfoldable pub optional_int : Value → Option ℤ
  unfolding to_str
  optional_int null = none
  optional_int (flag b) = none
  optional_int value = python.parse_int (python.strip (to_str value))

  unfoldable pub optional_str : Value → Option String
  unfolding to_str
  optional_str null = none
  optional_str (mapping items) = none
  optional_str (sequence vs) = none
  optional_str value =
      let stripped = python.strip (to_str value) in
      if str_eq stripped "" then none else some stripped

  -- `[number for item in items if (number := optional_int(item)) is not None]`
  unfoldable pub kept {ℓ} : {A : Type ℓ} → (Value → Option A) → List Value → List A
  kept read [] = []
  kept read (item ∷ items) =
      let rest = kept read items in elim (read item) [ none ↦ rest | some a ↦ a ∷ rest ]

  -- `_decode`
  unfoldable pub decode : List (ℕ × String) → ℤ → String
  unfolding entry_of
  decode table value = elim (entry_of table value) [
    | none ↦ concat "unknown(" (concat (python.show_int value) ")")
    | some name ↦ name
  ]

abbrev pub power_state_table : List (ℕ × String)
power_state_table =
    (2, "on")
    ∷ (3, "sleep")
    ∷ (4, "sleep")
    ∷ (5, "on")
    ∷ (6, "off")
    ∷ (7, "hibernate")
    ∷ (8, "off")
    ∷ (9, "off")
    ∷ (13, "off")
    ∷ []

abbrev pub enabled_state_table : List (ℕ × String)
enabled_state_table =
    (0, "unknown")
    ∷ (1, "other")
    ∷ (2, "enabled")
    ∷ (3, "disabled")
    ∷ (4, "shutting_down")
    ∷ (5, "not_applicable")
    ∷ (6, "enabled_but_offline")
    ∷ (7, "in_test")
    ∷ (8, "deferred")
    ∷ (9, "quiesce")
    ∷ (10, "starting")
    ∷ []

abbrev pub operational_status_table : List (ℕ × String)
operational_status_table =
    (0, "unknown")
    ∷ (1, "other")
    ∷ (2, "ok")
    ∷ (3, "degraded")
    ∷ (4, "stressed")
    ∷ (5, "predictive_failure")
    ∷ (6, "error")
    ∷ (7, "non_recoverable_error")
    ∷ (8, "starting")
    ∷ (9, "stopping")
    ∷ (10, "stopped")
    ∷ (11, "in_service")
    ∷ (12, "no_contact")
    ∷ (13, "lost_communication")
    ∷ (14, "aborted")
    ∷ (15, "dormant")
    ∷ (16, "supporting_entity_in_error")
    ∷ (17, "completed")
    ∷ (18, "power_mode")
    ∷ (19, "relocating")
    ∷ []

abbrev pub link_policy_table : List (ℕ × String)
link_policy_table = (1, "s0_ac") ∷ (14, "sx_ac") ∷ (16, "s0_dc") ∷ (224, "sx_dc") ∷ []
