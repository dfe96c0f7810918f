-- ===== src/MessageLog/Container.antt =====
-- message_log.py: `get_log_properties`, the invocations that tolerate a ReturnValue,
-- `_position_to_first_record` and `clear_log`, against the WS-Man client.
use ansible_collection_intel.Prelude.{
  ℕ, suc, ℤ, pos, Bool, true, false, ◌||◌, Option, none, some, String, List, [], ◌∷◌, ◌==◌,
  if◌then◌else◌,
}
use ansible_collection_intel.Errors.{
  Error, ok, refuse, protocol, unsupported_capability, remote_operation,
}
use ansible_collection_intel.Client.{
  Value, null, Instance, WsmanClient, Action, ◌>>=◌, ◌>>◌, lift, attempt, get, enumerate, invoke,
}
use ansible_collection_intel.Models.{
  Python, get_value, candidates_of, truthy, optional_int, optional_str, kept,
}

abbrev pub message_log_class : String
message_log_class = "AMT_MessageLog"

pub record MessageLogProperties : Type 0 where
  pub current_number_of_records : Option ℤ
  pub max_number_of_records : Option ℤ
  pub max_record_size : Option ℤ
  pub element_name : Option String
  pub is_frozen : Option Bool
  pub log_state : Option ℤ
  pub overwrite_policy : Option ℤ
  pub capabilities : List ℤ

-- `_DEGRADABLE_ERRORS`
unfoldable pub is_degradable : Error → Bool
is_degradable protocol = true
is_degradable unsupported_capability = true
is_degradable _ = false

-- `except _DEGRADABLE_ERRORS:` with its default
abbrev pub degrade {ℓ} : {A : Type ℓ} → A → Error → Option A
degrade default e = if is_degradable e then some default else none

-- the first instance that is not empty; an item of the enumeration that is no dictionary is an
-- empty instance here
unfoldable pub first_instance : List Instance → Instance
first_instance [] = []
first_instance ([] ∷ items) = first_instance items
first_instance ((property ∷ properties) ∷ items) = property ∷ properties

-- `if not instance:`
unfoldable pub is_empty {ℓ} : {A : Type ℓ} → List A → Bool
is_empty [] = true
is_empty (x ∷ xs) = false

abbrev pub tolerated_by_position : List ℕ
tolerated_by_position = 1 ∷ 2 ∷ []

abbrev pub tolerated_by_get_records : List ℕ
tolerated_by_get_records = 2 ∷ 3 ∷ []

unfoldable pub is_member : ℕ → List ℕ → Bool
is_member n [] = false
is_member n (m ∷ ms) = m == n || is_member n ms

-- the handler of `_invoke_tolerating_return_values`
unfoldable pub tolerate : List ℕ → Error → Option (Instance × ℕ)
unfolding is_member
tolerate tolerated (remote_operation (pos n)) = if is_member n tolerated then some ([], n) else none
tolerate tolerated _ = none

-- `identifier if identifier is not None and identifier >= 1 else 1`
unfoldable pub first_identifier : Option ℤ → ℤ
first_identifier (some (pos (suc n))) = pos (suc n)
first_identifier _ = pos 1

module _ (python : Python) where
  unfoldable pub optional_truth : Value → Option Bool
  unfolding truthy
  optional_truth null = none
  optional_truth value = some (truthy python value)

  -- `MessageLogProperties.from_instance`
  unfoldable pub properties_of : Instance → MessageLogProperties
  unfolding get_value optional_int optional_str optional_truth kept candidates_of
  properties_of instance = record {
    current_number_of_records = optional_int python (get_value "CurrentNumberOfRecords" instance);
    max_number_of_records = optional_int python (get_value "MaxNumberOfRecords" instance);
    max_record_size = optional_int python (get_value "MaxRecordSize" instance);
    element_name = optional_str python (get_value "ElementName" instance);
    is_frozen = optional_truth (get_value "IsFrozen" instance);
    log_state = optional_int python (get_value "LogState" instance);
    overwrite_policy = optional_int python (get_value "OverwritePolicy" instance);
    capabilities =
        kept python (optional_int python) (candidates_of (get_value "Capabilities" instance));
  }

module _ (client : WsmanClient) where
  unfoldable pub get_instance : Action Instance
  unfolding is_degradable get
  get_instance = attempt (degrade []) (get client message_log_class)

  unfoldable pub enumerated_instance : Action Instance
  unfolding is_degradable enumerate first_instance
  enumerated_instance = attempt (degrade []) (enumerate client message_log_class) >>= λ items.
      lift (ok (first_instance items))

  -- the instance, or that of the fallback
  unfoldable pub or_enumerated : Instance → Action Instance
  unfolding enumerated_instance
  or_enumerated [] = enumerated_instance
  or_enumerated (property ∷ properties) = lift (ok (property ∷ properties))

  module _ (python : Python) where
    unfoldable pub get_log_properties : Action MessageLogProperties
    unfolding get_instance or_enumerated is_empty properties_of
    get_log_properties = get_instance >>= λ read. or_enumerated read >>= λ instance.
        lift (refuse (is_empty instance) unsupported_capability)
        >> lift (ok (properties_of python instance))

  -- `_invoke_tolerating_return_values`; a return without an error has the ReturnValue 0
  unfoldable pub invoke_tolerating : String → Instance → List ℕ → Action (Instance × ℕ)
  unfolding invoke tolerate
  invoke_tolerating method params tolerated =
      attempt (tolerate tolerated)
        (invoke client message_log_class method params [] >>= λ output. lift (ok (output, 0)))

  -- `_position_to_first_record`
  module _ (python : Python) where
    unfoldable pub position_to_first_record : Action (ℤ × ℕ)
    unfolding invoke_tolerating get_value optional_int first_identifier
    position_to_first_record =
        invoke_tolerating "PositionToFirstRecord" [] tolerated_by_position
        >>= λ (output, return_value).
            lift (refuse (return_value == 1) unsupported_capability)
            >> lift (
                ok (
                  first_identifier (optional_int python (get_value "IterationIdentifier" output)),
                  return_value,
                ))

  unfoldable pub clear_log : Action ℕ
  unfolding invoke
  clear_log = invoke client message_log_class "ClearLog" [] [] >>= λ output. lift (ok 0)
