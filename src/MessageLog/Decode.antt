-- ===== src/MessageLog/Decode.antt =====
-- message_log.py: `describe_event`, `decode_record` and `is_empty_record_slot`. `Library` stands
-- for base64 and datetime of Python's library; the text of a `decode_error` is its kind.
use Prim.Native.Char.{Char, nul}
use Prim.Native.String.{◌++◌ as concat}
use ansible_collection_intel.Prelude.{
  ℕ, ◌+◌, ◌*◌, ◌/◌, ◌%◌, pos, Bool, false, not, ◌||◌, Option, none, some, String, List, [], ◌∷◌,
  Bytes, length, take, drop, replicate, get_or, at, get_le32, ltb, ◌==◌, str_eq, if◌then◌else◌,
}
use ansible_collection_intel.Models.{Python, entry, decode}
use ansible_collection_intel.MessageLog.Tables.{
  event_severity_table, system_entity_table, system_firmware_error_table,
  system_firmware_progress_table, watchdog_state_table, fixed_sensor_descriptions,
}

pub record Library : Type 0 where
  -- `base64.b64decode(encoded, validate=True)`, `none` where it raises
  pub b64decode : String → Option Bytes
  -- `datetime.fromtimestamp(…).isoformat()` with its `Z`, `none` where it raises
  pub iso_utc : ℕ → Option String

pub data DecodeError : Type 0 where
  not_base64 : DecodeError
  too_short : ℕ → DecodeError

pub record EventRecord : Type 0 where
  pub raw_base64 : String
  pub raw_hex : Option String
  pub raw_length : Option ℕ
  pub decode_error : Option DecodeError
  pub timestamp : Option ℕ
  pub timestamp_utc : Option String
  pub device_address : Option ℕ
  pub event_sensor_type : Option ℕ
  pub event_type : Option ℕ
  pub event_offset : Option ℕ
  pub event_source_type : Option ℕ
  pub event_severity : Option ℕ
  pub event_severity_text : Option String
  pub sensor_number : Option ℕ
  pub entity : Option ℕ
  pub entity_text : Option String
  pub entity_instance : Option ℕ
  pub event_data : Option Bytes
  pub description : Option String

abbrev pub nonzero_digits : List Char
nonzero_digits =
    "1" ∷ "2" ∷ "3" ∷ "4" ∷ "5" ∷ "6" ∷ "7" ∷ "8" ∷ "9" ∷ "a" ∷ "b" ∷ "c" ∷ "d" ∷ "e" ∷ "f" ∷ []

unfoldable pub hex_digit : ℕ → Char
hex_digit n = get_or ("0" ∷ nonzero_digits) n nul

-- `bytes.hex()`, and `f"{b:02x}"` byte by byte
unfoldable pub hex : Bytes → String
unfolding hex_digit
hex [] = String.[]
hex (b ∷ bs) = String.◌∷◌ (hex_digit (b / 16)) (String.◌∷◌ (hex_digit (b % 16)) (hex bs))

abbrev pub record_size : ℕ
record_size = 21

abbrev pub event_data_size : ℕ
event_data_size = 8

abbrev pub firmware_data_invalid : ℕ
firmware_data_invalid = 235

abbrev pub intel_event_data_marker : ℕ
intel_event_data_marker = 170

unfoldable pub describe_firmware : ℕ → Bytes → Option String
unfolding entry
describe_firmware event_offset event_data =
    if at event_data 0 == firmware_data_invalid
    then some "Invalid Data"
    else (if event_offset == 0
        then entry system_firmware_error_table (at event_data 1)
        else (if at event_data 0 == intel_event_data_marker
            then none
            else entry system_firmware_progress_table (at event_data 1)))

-- the bytes of the truncated GUID, in the order in which they are shown
unfoldable pub watchdog_guid : Bytes → String
unfolding hex
watchdog_guid event_data =
    concat (hex (at event_data 4 ∷ at event_data 3 ∷ at event_data 2 ∷ at event_data 1 ∷ []))
      (concat "-" (hex (at event_data 6 ∷ at event_data 5 ∷ [])))

module _ (python : Python) where
  unfoldable pub describe_watchdog : Bytes → Option String
  unfolding watchdog_guid decode
  describe_watchdog event_data =
      if not (at event_data 0 == intel_event_data_marker)
      then none
      else some (
          concat "Agent watchdog " (
            concat (watchdog_guid event_data) (
              concat "-... changed to "
                (decode python watchdog_state_table (pos (at event_data 7))))))

  unfoldable pub describe_event : ℕ → ℕ → Bytes → Option String
  unfolding describe_firmware describe_watchdog entry
  describe_event event_sensor_type event_offset event_data =
      if ltb (length event_data) event_data_size
      then none
      else (if event_sensor_type == 6
          then some (
              concat "Authentication failed " (
                concat (python.show_int (pos (at event_data 1 + 256 * at event_data 2)))
                  " times. The system may be under attack."))
          else (if event_sensor_type == 15
              then describe_firmware event_offset event_data
              else (if event_sensor_type == 18
                  then describe_watchdog event_data
                  else entry fixed_sensor_descriptions event_sensor_type)))

  module _ (library : Library) where
    -- `_format_timestamp`
    unfoldable pub format_timestamp : ℕ → Option String
    format_timestamp timestamp =
        if timestamp == 0 || timestamp == 4294967295 then none else library.iso_utc timestamp

    -- a record of which no field was read
    unfoldable pub undecoded : String → Option Bytes → DecodeError → EventRecord
    unfolding hex
    undecoded encoded raw error = record {
      raw_base64 = encoded;
      raw_hex = elim raw [ none ↦ none | some bytes ↦ some (hex bytes) ];
      raw_length = elim raw [ none ↦ none | some bytes ↦ some (length bytes) ];
      decode_error = some error;
      timestamp = none;
      timestamp_utc = none;
      device_address = none;
      event_sensor_type = none;
      event_type = none;
      event_offset = none;
      event_source_type = none;
      event_severity = none;
      event_severity_text = none;
      sensor_number = none;
      entity = none;
      entity_text = none;
      entity_instance = none;
      event_data = none;
      description = none;
    }

    -- a record of at least `record_size` bytes, `_RECORD_STRUCT.unpack_from(raw, 0)`
    unfoldable pub decoded : String → Bytes → EventRecord
    unfolding hex format_timestamp decode describe_event
    decoded encoded raw =
        let event_data : Bytes = take event_data_size (drop 13 raw) in
        record {
          raw_base64 = encoded;
          raw_hex = some (hex raw);
          raw_length = some (length raw);
          decode_error = none;
          timestamp = some (get_le32 raw 0);
          timestamp_utc = format_timestamp (get_le32 raw 0);
          device_address = some (at raw 4);
          event_sensor_type = some (at raw 5);
          event_type = some (at raw 6);
          event_offset = some (at raw 7);
          event_source_type = some (at raw 8);
          event_severity = some (at raw 9);
          event_severity_text = some (decode python event_severity_table (pos (at raw 9)));
          sensor_number = some (at raw 10);
          entity = some (at raw 11);
          entity_text = some (decode python system_entity_table (pos (at raw 11)));
          entity_instance = some (at raw 12);
          event_data = some event_data;
          description = describe_event (at raw 5) (at raw 7) event_data;
        }

    -- behind the decoding of base64
    unfoldable pub decode_raw : String → Option Bytes → EventRecord
    unfolding undecoded decoded
    decode_raw encoded none = undecoded encoded none not_base64
    decode_raw encoded (some raw) =
        if ltb (length raw) record_size
        then undecoded encoded (some raw) (too_short (length raw))
        else decoded encoded raw

    unfoldable pub decode_record : String → EventRecord
    unfolding decode_raw
    decode_record encoded = decode_raw encoded (library.b64decode encoded)

unfoldable pub empty_slot_hex : String
unfolding hex
empty_slot_hex = hex (replicate record_size 0)

unfoldable pub is_empty_record_slot : EventRecord → Bool
unfolding empty_slot_hex
is_empty_record_slot event = elim event.decode_error [
  | some _ ↦ false
  | none ↦ elim event.raw_hex [ none ↦ false | some digits ↦ str_eq digits empty_slot_hex ]
]
