-- ===== src/MessageLog/Tests.antt =====
-- message_log.py: runs, on a record that real firmware returned and on an empty slot.
use ansible_collection_intel.Prelude.{
  ◌≡◌, ◌≢◌, ◌↔◌, refl, subst, inl, pos, true, Option, none, some, [], ◌∷◌, Bytes, replicate, str_eq,
  arith, if◌then◌else◌,
}
use ansible_collection_intel.Errors.{ok, err, ok_injective, connection, remote_operation}
use ansible_collection_intel.Client.{
  text, sequence, no_values, more_values, Instance, WsmanClient, get,
}
use ansible_collection_intel.Client.Made.{Made}
use ansible_collection_intel.Models.{get_value, truthy, to_str, says_true}
use ansible_collection_intel.Models.Sample.{decimal_python, stroke_python, stroke_python-reads_back}
use ansible_collection_intel.MessageLog.Decode.{
  Library, decode_record, decode_raw, decoded, is_empty_record_slot, describe_event,
}
use ansible_collection_intel.MessageLog.Container.{
  properties_of, get_log_properties, get_instance, is_degradable,
}
use ansible_collection_intel.MessageLog.Read.{
  MessageLogRead, no_more_records, stop_at, read_records,
}
use ansible_collection_intel.MessageLog.RoundTrip.{
  Event, Keeps, record_of, decode_record-pack, decode_record-Keeps,
}
use ansible_collection_intel.MessageLog.Slots.{is_empty_record_slot-decode_record_iff}
use ansible_collection_intel.MessageLog.Calls.{IsReadCall, read_records-IsReadCall}
use ansible_collection_intel.MessageLog.Rounds.{IsProductive}
use ansible_collection_intel.MessageLog.Ends.{read_records-ends}
use ansible_collection_intel.MessageLog.Endless.{endless_firmware, read_records-endless}

abbrev authentication_failure : Event
authentication_failure = record {
  time = 1704511587;
  address = 255;
  sensor_type = 6;
  kind = 111;
  offset = 5;
  source_type = 104;
  severity = 16;
  sensor = 255;
  source = 38;
  instance_number = 97;
  payload = 170 ∷ 10 ∷ 0 ∷ 0 ∷ 0 ∷ 0 ∷ 0 ∷ 0 ∷ [];
}

abbrev record_bytes : Bytes
record_bytes =
    99 ∷ 200 ∷ 152 ∷ 101 ∷ 255 ∷ 6 ∷ 111 ∷ 5 ∷ 104 ∷ 16 ∷ 255 ∷ 38 ∷ 97 ∷ 170 ∷ 10 ∷ 0 ∷ 0 ∷ 0 ∷ 0
    ∷ 0 ∷ 0 ∷ []

abbrev sample_library : Library
sample_library = record {
  b64decode = λ encoded.
      if str_eq encoded "Y8iYZf8GbwVoEP8mYaoKAAAAAAAA"
      then some record_bytes
      else (if str_eq encoded "AAAAAAAAAAAAAAAAAAAAAAAAAAAA" then some (replicate 21 0) else none);
  iso_utc = λ timestamp. some "2024-01-06T03:26:27Z";
}

description_example :
    (decode_record decimal_python sample_library "Y8iYZf8GbwVoEP8mYaoKAAAAAAAA").description
    ≡ some "Authentication failed 10 times. The system may be under attack."
unfolding decode_record decode_raw decoded describe_event
description_example = refl

decode_record-pack_example :
    decode_record decimal_python sample_library "Y8iYZf8GbwVoEP8mYaoKAAAAAAAA"
    ≡ record_of decimal_python sample_library "Y8iYZf8GbwVoEP8mYaoKAAAAAAAA" authentication_failure
        []
decode_record-pack_example =
    decode_record-pack decimal_python sample_library "Y8iYZf8GbwVoEP8mYaoKAAAAAAAA"
      authentication_failure [] refl record { time_fits = omega arith; payload_is_full = refl }

decode_record-Keeps_example :
    Keeps decimal_python sample_library "!" none (decode_record decimal_python sample_library "!")
decode_record-Keeps_example = decode_record-Keeps decimal_python sample_library "!"

is_empty_record_slot-decode_record_example :
    (is_empty_record_slot
        (decode_record decimal_python sample_library "AAAAAAAAAAAAAAAAAAAAAAAAAAAA")
      ≡ true)
    ↔ (Path (Option Bytes) (some (replicate 21 0)) (some (replicate 21 0)))
is_empty_record_slot-decode_record_example =
    is_empty_record_slot-decode_record_iff decimal_python sample_library
      "AAAAAAAAAAAAAAAAAAAAAAAAAAAA"

abbrev log_instance : Instance
log_instance = ("CurrentNumberOfRecords", text "1") ∷ []

-- What it answers to `GetRecords`: one record, an empty slot, and the end.
abbrev last_batch : Instance
last_batch =
    (
      "RecordArray",
      sequence (
          more_values (text "Y8iYZf8GbwVoEP8mYaoKAAAAAAAA")
            (more_values (text "AAAAAAAAAAAAAAAAAAAAAAAAAAAA") no_values)),
    )
    ∷ ("NoMoreRecords", text "true")
    ∷ []

abbrev short_log : WsmanClient
short_log = record {
  answer_enumerate = λ calls name. ok [];
  answer_get = λ calls name. ok log_instance;
  answer_select = λ calls name selectors. ok [];
  answer_put = λ calls name properties. ok properties;
  answer_invoke = λ calls name method params selectors. ok last_batch;
}

abbrev short_read : MessageLogRead
short_read = record {
  properties = properties_of decimal_python log_instance;
  ended =
      stop_at
        record {
          identifier = pos 1;
          records = decode_record decimal_python sample_library "Y8iYZf8GbwVoEP8mYaoKAAAAAAAA" ∷ [];
          consumed = 2;
          empty_slots = 1;
          batches = 1;
        }
        no_more_records true;
  total_records = some (pos 1);
}

read_records-IsReadCall_example :
    Made (IsReadCall 390) [] (read_records decimal_python sample_library short_log 390 390 3 []).1
read_records-IsReadCall_example =
    read_records-IsReadCall 390 short_log decimal_python sample_library 390 3 []

short_log-IsProductive : IsProductive decimal_python short_log
unfolding truthy get_value to_str says_true
short_log-IsProductive = record {
  hands_out = λ calls params output e. inl (
      subst (λ answer. truthy decimal_python (get_value "NoMoreRecords" answer) ≡ true)
        (ok_injective e) refl);
}

read_records-ends_example :
    (read_records decimal_python sample_library short_log 390 390 391 []).0 ≢ ok none
read_records-ends_example =
    read_records-ends decimal_python sample_library short_log 390 390 short_log-IsProductive 391 []
      (omega arith)

read_records-endless_example :
    (read_records stroke_python sample_library endless_firmware 390 390 1000 []).0 ≡ ok none
read_records-endless_example =
    read_records-endless stroke_python sample_library 390 390 stroke_python-reads_back 1000
      (omega arith)

abbrev unreachable : WsmanClient
unreachable = record {
  answer_enumerate = λ calls name. err connection;
  answer_get = λ calls name. err connection;
  answer_select = λ calls name selectors. ok [];
  answer_put = λ calls name properties. err connection;
  answer_invoke = λ calls name method params selectors. err (remote_operation (pos 2));
}

unreachable_log : (get_log_properties unreachable decimal_python []).0 ≡ err connection
unfolding get_log_properties get_instance get is_degradable
unreachable_log = refl
