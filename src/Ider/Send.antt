-- ===== src/Ider/Send.antt =====
-- ider.py, outbound frames: `_header`, `_send_command` and the replies built on it, and `start`. The
-- `send` callable is code outside the engine that takes a frame; here it takes every frame, and raises
-- nothing.
use ansible_collection_intel.Prelude.{
  ℕ, ◌+◌, ◌*◌, ◌/◌, ◌%◌, ◌^◌, Bool, true, false, ◌&&◌, [], ◌∷◌, ◌++◌, Bytes, length, replicate,
  le16, le32, ltb, bit_or, if◌then◌else◌,
}
use ansible_collection_intel.Errors.{struct_error}
use ansible_collection_intel.Ider.Command.{
  cmd_open_session, cmd_disable_enable_features, cmd_command_end_response, cmd_data_to_host,
  cmd_get_data_from_host,
}
use ansible_collection_intel.Ider.Target.{Target, Outcome, done, raised}

-- `_header`
unfoldable pub header : ℕ → ℕ → Bool → Bool → Bytes
header cmdid seq completed dma =
    (cmdid % 256)
    ∷ 0
    ∷ 0
    ∷ bit_or (if dma then 1 else 0) (if completed && ltb 50 cmdid then 2 else 0)
    ∷ le32 (seq % 2 ^ 32)

-- `_send_command`
unfoldable pub send_command : ℕ → Bytes → Bool → Bool → Target → Target
send_command cmdid payload completed dma t =
    let frame = header cmdid t.out_seq completed dma ++ payload in
    record t {
      out_seq = (t.out_seq + 1) % 2 ^ 32;
      bytes_to_amt = t.bytes_to_amt + length frame;
      sent = t.sent ++ frame ∷ [];
    }

-- `_send_disable_enable_features`
unfoldable pub send_disable_enable_features : ℕ → Bytes → Target → Target
send_disable_enable_features feature_type bytes =
    send_command cmd_disable_enable_features (feature_type ∷ bytes) false false

-- The payload of `_send_command_end_response`. `device` is the byte on the wire.
unfoldable pub end_response : Bool → ℕ → ℕ → ℕ → ℕ → Bytes
end_response true sense device asc asq =
    replicate 12 0 ++ 0xc5 ∷ 0 ∷ 3 ∷ 0 ∷ 0 ∷ 0 ∷ device ∷ 0x50 ∷ 0 ∷ 0 ∷ 0 ∷ []
end_response false sense device asc asq =
    replicate 12 0
    ++ 0x87 ∷ (sense * 16 % 256) ∷ 3 ∷ 0 ∷ 0 ∷ 0 ∷ device ∷ 0x51 ∷ sense ∷ asc ∷ asq ∷ []

-- `_send_command_end_response`
unfoldable pub send_command_end_response : Bool → ℕ → ℕ → ℕ → ℕ → Target → Target
send_command_end_response error sense device asc asq =
    send_command cmd_command_end_response (end_response error sense device asc asq) true false

unfoldable pub data_prefix : ℕ → ℕ → Bool → Bytes
data_prefix device n dma =
    let dmalen : ℕ = if dma then 0 else n in
    0
    ∷ (n % 256)
    ∷ (n / 256 % 256)
    ∷ 0
    ∷ (if dma then 0xb4 else 0xb5)
    ∷ 0
    ∷ 2
    ∷ 0
    ∷ (dmalen % 256)
    ∷ (dmalen / 256 % 256)
    ∷ device
    ∷ 0x58
    ∷ []

unfoldable pub data_suffix : ℕ → Bool → Bytes
data_suffix device true = 0x85 ∷ 0 ∷ 3 ∷ 0 ∷ 0 ∷ 0 ∷ device ∷ 0x50 ∷ 0 ∷ 0 ∷ 0 ∷ 0 ∷ 0 ∷ 0 ∷ []
data_suffix device false = replicate 14 0

-- The payload of `_send_data_to_host`.
unfoldable pub data_payload : ℕ → Bool → Bytes → Bool → Bytes
unfolding data_prefix data_suffix
data_payload device completed bytes dma =
    data_prefix device (length bytes) dma ++ (data_suffix device completed ++ bytes)

-- `_send_data_to_host`
unfoldable pub send_data_to_host : ℕ → Bool → Bytes → Bool → Target → Target
send_data_to_host device completed bytes dma =
    send_command cmd_data_to_host (data_payload device completed bytes dma) completed dma

-- The payload of `_send_get_data_from_host`: the low 16 bits of the length.
unfoldable pub get_data_payload : ℕ → ℕ → Bytes
get_data_payload device chunk =
    (0
      ∷ (chunk % 256)
      ∷ (chunk / 256 % 256)
      ∷ 0
      ∷ 0xb5
      ∷ 0
      ∷ 0
      ∷ 0
      ∷ (chunk % 256)
      ∷ (chunk / 256 % 256)
      ∷ device
      ∷ 0x58
      ∷ [])
    ++ replicate 11 0

-- `_send_get_data_from_host`
unfoldable pub send_get_data_from_host : ℕ → ℕ → Target → Target
send_get_data_from_host device chunk =
    send_command cmd_get_data_from_host (get_data_payload device chunk) false false

-- `struct.pack("<HHHI", …)` refuses a timeout that does not fit 16 bits.
unfoldable pub start : Target → Outcome
start t =
    if ltb t.rx_timeout (2 ^ 16) && (ltb t.tx_timeout (2 ^ 16) && ltb t.heartbeat (2 ^ 16))
    then done (
        send_command cmd_open_session
          (le16 t.rx_timeout ++ (le16 t.tx_timeout ++ (le16 t.heartbeat ++ le32 1))) false false t)
    else raised struct_error t
