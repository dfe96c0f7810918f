-- ===== src/MessageLog/Read.antt =====
-- message_log.py: `read_records`. The loop runs on fuel, and `none` is a
-- loop that is still running when the fuel is used up.
use ansible_collection_intel.Prelude.{
  ℕ, zero, suc, ◌+◌, ◌-◌, min, ℤ, pos, Bool, true, false, Option, none, some, String, List, [], ◌∷◌,
  ◌++◌, length, take, leb, ◌==◌, int_eq, if◌then◌else◌,
}
use ansible_collection_intel.Errors.{ok}
use ansible_collection_intel.Client.{null, number, Instance, WsmanClient, Action, ◌>>=◌, lift}
use ansible_collection_intel.Models.{
  Python, get_value, candidates_of, truthy, optional_int, optional_str, kept,
}
use ansible_collection_intel.MessageLog.Decode.{
  Library, EventRecord, decode_record, is_empty_record_slot,
}
use ansible_collection_intel.MessageLog.Container.{
  MessageLogProperties, get_log_properties, invoke_tolerating, tolerated_by_get_records,
  position_to_first_record,
}

abbrev pub max_read_records : ℕ
max_read_records = 390

abbrev pub default_max_records : ℕ
default_max_records = 390

pub data StopReason : Type 0 where
  no_more_records no_record_exists no_record_exists_in_log max_records_reached : StopReason
  invalid_record_pointed no_iteration_identifier iteration_stalled : StopReason

-- The variables of the loop.
pub record Progress : Type 0 where
  pub identifier : ℤ
  pub records : List EventRecord
  pub consumed : ℕ
  pub empty_slots : ℕ
  pub batches : ℕ

-- What the loop leaves behind.
pub record Ended : Type 0 where
  pub progress : Progress
  pub stop_reason : StopReason
  pub complete : Bool
  pub truncated : Bool

pub record MessageLogRead : Type 0 where
  pub properties : MessageLogProperties
  pub ended : Ended
  pub total_records : Option ℤ

abbrev pub start_at : ℤ → Progress
start_at identifier = record {
  identifier = identifier;
  records = [];
  consumed = 0;
  empty_slots = 0;
  batches = 0;
}

abbrev pub stop_at : Progress → StopReason → Bool → Ended
stop_at p reason complete = record {
  progress = p;
  stop_reason = reason;
  complete = complete;
  truncated = false;
}

-- the bound is reached
abbrev pub stop_full : Progress → Ended
stop_full p = record {
  progress = p;
  stop_reason = max_records_reached;
  complete = false;
  truncated = true;
}

-- One round's decision: `break`, or the state of the next round.
pub data Round : Type 0 where
  break : Ended → Round
  again : Progress → Round

abbrev pub count_batch : Progress → Progress
count_batch p = record {
  identifier = p.identifier;
  records = p.records;
  consumed = p.consumed;
  empty_slots = p.empty_slots;
  batches = suc p.batches;
}

abbrev pub advance : Progress → ℤ → Progress
advance p identifier = record {
  identifier = identifier;
  records = p.records;
  consumed = p.consumed;
  empty_slots = p.empty_slots;
  batches = p.batches;
}

-- one element of a batch
unfoldable pub add_record : EventRecord → Progress → Progress
unfolding is_empty_record_slot
add_record event p = record {
  identifier = p.identifier;
  records = if is_empty_record_slot event then p.records else p.records ++ event ∷ [];
  consumed = p.consumed;
  empty_slots = if is_empty_record_slot event then suc p.empty_slots else p.empty_slots;
  batches = p.batches;
}

abbrev pub consume : ℕ → Progress → Progress
consume n p = record {
  identifier = p.identifier;
  records = p.records;
  consumed = p.consumed + n;
  empty_slots = p.empty_slots;
  batches = p.batches;
}

-- the rest of the loop, where it was not left
unfoldable pub go_on : (Progress → Action (Option Ended)) → Round → Action (Option Ended)
go_on rest (break ended) = lift (ok (some ended))
go_on rest (again next) = rest next

module _ (python : Python) where
  -- `_record_array`
  unfoldable pub record_array : Instance → List String
  unfolding get_value candidates_of kept optional_str
  record_array output = elim (get_value "RecordArray" output) [
    | null ↦ []
    | raw ↦ kept python (optional_str python) (candidates_of raw)
  ]

  module _ (library : Library) where
    unfoldable pub add_records : List String → Progress → Progress
    unfolding add_record decode_record
    add_records [] p = p
    add_records (item ∷ items) p =
        add_records items (add_record (decode_record python library item) p)

    -- `next_identifier`, where the firmware has not said that it is done
    unfoldable pub continue_with : Option ℤ → Progress → Round
    continue_with none p = break (stop_at p no_iteration_identifier false)
    continue_with (some identifier) p =
        if int_eq identifier p.identifier
        then break (stop_at p iteration_stalled false)
        else again (advance p identifier)

    -- the loop's body behind a batch
    unfoldable pub take_batch : ℕ → Instance → Progress → Round
    unfolding record_array add_records truthy get_value continue_with optional_int
    take_batch remaining output p =
        let batch : List String = take remaining (record_array output) in
        let after : Progress = add_records batch (consume (length batch) p) in
        if truthy python (get_value "NoMoreRecords" output)
        then break (stop_at after no_more_records true)
        else continue_with (optional_int python (get_value "IterationIdentifier" output)) after

    -- the loop's body behind `GetRecords`
    unfoldable pub after_get_records : ℕ → Instance → ℕ → Progress → Round
    unfolding take_batch
    after_get_records remaining output return_value p =
        if return_value == 3
        then break (stop_at p no_record_exists_in_log true)
        else (if return_value == 2
            then break (stop_at p invalid_record_pointed false)
            else take_batch remaining output p)

    module _ (client : WsmanClient) (max_records batch_size : ℕ) where
      abbrev pub get_records_params : Progress → Instance
      get_records_params p =
          ("IterationIdentifier", number p.identifier)
          ∷ (
            "MaxReadRecords",
            number (pos (min (min batch_size (max_records - p.consumed)) max_read_records)),
          )
          ∷ []

      -- one `GetRecords` and what is made of its answer
      unfoldable pub round : Progress → Action Round
      unfolding invoke_tolerating after_get_records
      round p =
          invoke_tolerating client "GetRecords" (get_records_params p) tolerated_by_get_records
          >>= λ (output, return_value). lift (
              ok (after_get_records (max_records - p.consumed) output return_value (count_batch p)))

      unfoldable pub read_loop : ℕ → Progress → Action (Option Ended)
      unfolding round go_on
      read_loop zero p = lift (ok none)
      read_loop (suc fuel) p =
          if leb max_records p.consumed
          then lift (ok (some (stop_full p)))
          else (round p >>= go_on (read_loop fuel))

      abbrev pub report : MessageLogProperties → Ended → MessageLogRead
      report properties ended = record {
        properties = properties;
        ended = ended;
        total_records = properties.current_number_of_records;
      }

      abbrev pub report_of : MessageLogProperties → Option Ended → Option MessageLogRead
      report_of properties none = none
      report_of properties (some ended) = some (report properties ended)

      -- behind `_position_to_first_record`
      unfoldable pub read_from : ℕ → MessageLogProperties → ℤ → ℕ → Action (Option MessageLogRead)
      unfolding read_loop
      read_from fuel properties identifier return_value =
          if return_value == 2
          then lift
              (ok (some (report properties (stop_at (start_at identifier) no_record_exists true))))
          else (read_loop fuel (start_at identifier) >>= λ ended.
              lift (ok (report_of properties ended)))

      unfoldable pub read_records : ℕ → Action (Option MessageLogRead)
      unfolding get_log_properties position_to_first_record read_from
      read_records fuel = get_log_properties client python >>= λ properties.
          position_to_first_record client python >>= λ (identifier, return_value).
          read_from fuel properties identifier return_value
