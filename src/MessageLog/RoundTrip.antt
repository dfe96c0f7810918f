-- ===== src/MessageLog/RoundTrip.antt =====
-- message_log.py: `decode_record` against the layout of a record, and on what it cannot read.
use ansible_collection_intel.Prelude.{
  ℕ, ◌+◌, ◌^◌, ◌<◌, ◌≤◌, ◌≡◌, refl, sym, ap, ◌∙◌, Option, none, some, String, ◌∷◌, ◌++◌, pos, Bytes,
  length, length-append, take, drop, le32, get_le32, ltb, le→not_ltb, lt→ltb, if_true, if_false,
  take-append_self, ◌⊎◌, inl, inr, arith, ◌≢◌, subst, ltb-cases, map_option,
}
use ansible_collection_intel.Models.{Python, decode}
use ansible_collection_intel.MessageLog.Tables.{event_severity_table, system_entity_table}
use ansible_collection_intel.MessageLog.Decode.{
  Library, DecodeError, not_base64, too_short, EventRecord, hex, describe_event, format_timestamp,
  undecoded, decoded, decode_raw, decode_record,
}

-- An event as the firmware's documentation lays it out.
pub record Event : Type 0 where
  pub time : ℕ
  pub address : ℕ
  pub sensor_type : ℕ
  pub kind : ℕ
  pub offset : ℕ
  pub source_type : ℕ
  pub severity : ℕ
  pub sensor : ℕ
  pub source : ℕ
  pub instance_number : ℕ
  pub payload : Bytes

-- The first bytes of a record: the little-endian time and the nine bytes behind it.
abbrev pub pack : Event → Bytes
pack e =
    le32 e.time
    ++ e.address ∷ e.sensor_type ∷ e.kind ∷ e.offset ∷ e.source_type ∷ e.severity ∷ e.sensor
      ∷ e.source ∷ e.instance_number ∷ e.payload

pub record IsPackable (e : Event) : Type 0 where
  pub time_fits : e.time < 2 ^ 32
  pub payload_is_full : length e.payload ≡ 8

-- No field of the record was read.
pub record IsUnread (event : EventRecord) : Type 0 where
  pub no_timestamp : event.timestamp ≡ none
  pub no_timestamp_utc : event.timestamp_utc ≡ none
  pub no_device_address : event.device_address ≡ none
  pub no_event_sensor_type : event.event_sensor_type ≡ none
  pub no_event_type : event.event_type ≡ none
  pub no_event_offset : event.event_offset ≡ none
  pub no_event_source_type : event.event_source_type ≡ none
  pub no_event_severity : event.event_severity ≡ none
  pub no_event_severity_text : event.event_severity_text ≡ none
  pub no_sensor_number : event.sensor_number ≡ none
  pub no_entity : event.entity ≡ none
  pub no_entity_text : event.entity_text ≡ none
  pub no_entity_instance : event.entity_instance ≡ none
  pub no_event_data : event.event_data ≡ none
  pub no_description : event.description ≡ none

module _ (python : Python) (library : Library) where
  -- The record that a decoder of the documented layout returns.
  abbrev pub record_of : String → Event → Bytes → EventRecord
  record_of encoded e tail = record {
    raw_base64 = encoded;
    raw_hex = some (hex (pack e ++ tail));
    raw_length = some (21 + length tail);
    decode_error = none;
    timestamp = some e.time;
    timestamp_utc = format_timestamp python library e.time;
    device_address = some e.address;
    event_sensor_type = some e.sensor_type;
    event_type = some e.kind;
    event_offset = some e.offset;
    event_source_type = some e.source_type;
    event_severity = some e.severity;
    event_severity_text = some (decode python event_severity_table (pos e.severity));
    sensor_number = some e.sensor;
    entity = some e.source;
    entity_text = some (decode python system_entity_table (pos e.source));
    entity_instance = some e.instance_number;
    event_data = some e.payload;
    description = describe_event python e.sensor_type e.offset e.payload;
  }

  length-pack :
      (e : Event) (tail : Bytes) → IsPackable e → length (pack e ++ tail) ≡ 21 + length tail
  length-pack e tail h = omega (arith, length-append e.payload tail, h.payload_is_full)

  payload_of-pack :
      (e : Event) (tail : Bytes) → IsPackable e → take 8 (drop 13 (pack e ++ tail)) ≡ e.payload
  payload_of-pack e tail h =
      ap (λ n. take n (e.payload ++ tail)) (sym h.payload_is_full) ∙ take-append_self e.payload tail

  time_of-pack : (e : Event) (tail : Bytes) → IsPackable e → get_le32 (pack e ++ tail) 0 ≡ e.time
  time_of-pack e tail h = omega (arith, h.time_fits)

  decoded-pack :
      (encoded : String) (e : Event) (tail : Bytes)
      → IsPackable e
      → decoded python library encoded (pack e ++ tail) ≡ record_of encoded e tail
  unfolding decoded
  decoded-pack encoded e tail h =
      rw (length-pack e tail h, payload_of-pack e tail h, time_of-pack e tail h) refl

  pub decode_raw-long :
      (encoded : String) (raw : Bytes)
      → 21 ≤ length raw
      → decode_raw python library encoded (some raw) ≡ decoded python library encoded raw
  unfolding decode_raw
  decode_raw-long encoded raw h = if_false (ltb (length raw) 21) _ _ (le→not_ltb (length raw) 21 h)

  pub decode_raw-short :
      (encoded : String) (raw : Bytes)
      → length raw < 21
      → decode_raw python library encoded (some raw)
        ≡ undecoded python library encoded (some raw) (too_short (length raw))
  unfolding decode_raw
  decode_raw-short encoded raw h = if_true (ltb (length raw) 21) _ _ (lt→ltb (length raw) 21 h)

  -- For every event whose time fits 32 bits and whose data is eight bytes, packed in the
  -- documented layout with any bytes behind it: a text that base64 decodes to these bytes is
  -- decoded to the record of that event, every field of it, with the text, the hexadecimal digits
  -- of all bytes and their number kept.
  pub decode_record-pack :
      (encoded : String) (e : Event) (tail : Bytes)
      → library.b64decode encoded ≡ some (pack e ++ tail)
      → IsPackable e
      → decode_record python library encoded ≡ record_of encoded e tail
  unfolding decode_record
  decode_record-pack encoded e tail b h =
      ap (decode_raw python library encoded) b
      ∙ decode_raw-long encoded (pack e ++ tail) (omega (arith, length-pack e tail h))
      ∙ decoded-pack encoded e tail h

  undecoded-IsUnread :
      (encoded : String) (raw : Option Bytes) (error : DecodeError)
      → IsUnread (undecoded python library encoded raw error)
  unfolding undecoded
  undecoded-IsUnread encoded raw error = record {
    no_timestamp = refl;
    no_timestamp_utc = refl;
    no_device_address = refl;
    no_event_sensor_type = refl;
    no_event_type = refl;
    no_event_offset = refl;
    no_event_source_type = refl;
    no_event_severity = refl;
    no_event_severity_text = refl;
    no_sensor_number = refl;
    no_entity = refl;
    no_entity_text = refl;
    no_entity_instance = refl;
    no_event_data = refl;
    no_description = refl;
  }

  -- What a text that base64 decodes to `raw` (`none`: not at all) comes to.
  pub record Keeps (encoded : String) (raw : Option Bytes) (event : EventRecord) : Type 0 where
    pub keeps_text : event.raw_base64 ≡ encoded
    pub keeps_hex : event.raw_hex ≡ map_option hex raw
    pub keeps_length : event.raw_length ≡ map_option length raw
    -- an error is reported with no field read, and where there is none, 21 bytes were
    pub explained :
        ((event.decode_error ≢ none) × IsUnread event)
        ⊎ ((event.decode_error ≡ none)
            × ((bytes : Bytes) × (raw ≡ some bytes)
                × (21 ≤ length bytes)
                × (event ≡ decoded python library encoded bytes)))

  Keeps-undecoded :
      (encoded : String) (raw : Option Bytes) (error : DecodeError)
      → Keeps encoded raw (undecoded python library encoded raw error)
  unfolding undecoded
  Keeps-undecoded encoded none error = record {
    keeps_text = refl;
    keeps_hex = refl;
    keeps_length = refl;
    explained = inl (λ e. cc, undecoded-IsUnread encoded none error);
  }
  Keeps-undecoded encoded (some raw) error = record {
    keeps_text = refl;
    keeps_hex = refl;
    keeps_length = refl;
    explained = inl (λ e. cc, undecoded-IsUnread encoded (some raw) error);
  }

  Keeps-decoded :
      (encoded : String) (raw : Bytes)
      → 21 ≤ length raw
      → Keeps encoded (some raw) (decoded python library encoded raw)
  unfolding decoded
  Keeps-decoded encoded raw h = record {
    keeps_text = refl;
    keeps_hex = refl;
    keeps_length = refl;
    explained = inr (refl, (raw, refl, h, refl));
  }

  Keeps-decode_raw :
      (encoded : String) (raw : Option Bytes)
      → Keeps encoded raw (decode_raw python library encoded raw)
  unfolding decode_raw
  Keeps-decode_raw encoded none = Keeps-undecoded encoded none not_base64
  Keeps-decode_raw encoded (some raw) = elim (ltb-cases (length raw) 21) [
    | inl h ↦
        subst (Keeps encoded (some raw)) (sym (decode_raw-short encoded raw h))
          (Keeps-undecoded encoded (some raw) (too_short (length raw)))
    | inr h ↦
        subst (Keeps encoded (some raw)) (sym (decode_raw-long encoded raw h))
          (Keeps-decoded encoded raw h)
  ]

  -- For every text, whatever base64 makes of it: the record carries the text, and the digits and
  -- the number of all bytes it decodes to; and either it carries an error and no field was read,
  -- or it carries none and its fields are those of the bytes, of which there are at least 21.
  pub decode_record-Keeps :
      (encoded : String)
      → Keeps encoded (library.b64decode encoded) (decode_record python library encoded)
  unfolding decode_record
  decode_record-Keeps encoded = Keeps-decode_raw encoded (library.b64decode encoded)
