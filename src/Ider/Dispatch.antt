-- ===== src/Ider/Dispatch.antt =====
-- ider.py, `_dispatch` and the handlers of the session's own messages.
use ansible_collection_intel.Prelude.{
  ℕ, ◌/◌, ◌%◌, ◌^◌, true, false, not, ◌||◌, some, [], ◌∷◌, ◌++◌, Bytes, take, drop, at, le32,
  get_le16, get_le32, ltb, ◌==◌, if◌then◌else◌,
}
use ansible_collection_intel.Errors.{protocol, struct_error}
use ansible_collection_intel.Ider.Command.{
  cmd_open_session_reply, cmd_close, cmd_keepalive_ping, cmd_keepalive_pong, cmd_reset_occurred,
  cmd_status_data, cmd_error_occurred, cmd_heartbeat, cmd_command_written, cmd_data_from_host,
  max_read_write_buffer,
}
use ansible_collection_intel.Ider.Target.{Target, OpenSessionInfo, Outcome, done, raised}
use ansible_collection_intel.Ider.Send.{send_command, send_disable_enable_features}
use ansible_collection_intel.Ider.Read.{reset_occurred}
use ansible_collection_intel.Ider.Write.{data_from_host}
use ansible_collection_intel.Ider.Scsi.{handle_scsi, device_of_flags}

-- `self._send_disable_enable_features(3, struct.pack("<I", self._start_mode))`
unfoldable pub send_start_mode : Target → Outcome
send_start_mode t =
    if ltb t.start_mode (2 ^ 32)
    then done (send_disable_enable_features 3 (le32 t.start_mode) t)
    else raised struct_error t

unfoldable pub session_info_of : Bytes → OpenSessionInfo
session_info_of message = record {
  major = at message 8;
  minor = at message 9;
  fw_major = at message 10;
  fw_minor = at message 11;
  readbfr = get_le16 message 16;
  writebfr = get_le16 message 18;
  proto = at message 21;
  iana = get_le32 message 25;
}

unfoldable pub accept_session : OpenSessionInfo → Target → Outcome
unfolding send_start_mode
accept_session info t =
    if not (info.proto == 0)
      || (ltb max_read_write_buffer info.readbfr || ltb max_read_write_buffer info.writebfr)
    then raised protocol (record t { stopped = true })
    else send_start_mode (record t { session_info = info; session_open = true })

-- `_on_open_session_reply`
unfoldable pub open_session_reply : Bytes → Target → Outcome
unfolding session_info_of accept_session
open_session_reply message t = accept_session (session_info_of message) t

-- `_on_status_data`; `value & 1` and `value & 2` are bits
unfoldable pub status_data : Bytes → Target → Outcome
unfolding send_start_mode
status_data message t =
    let value = get_le32 message 9 in
    if at message 8 == 1
    then (if value % 2 == 1 then send_start_mode t else done t)
    else if at message 8 == 2
    then done (record t { enabled = value / 2 % 2 == 1 })
    else if at message 8 == 3
    then done (record t { feature_toggle_ok = some (value == 1) })
    else done t

-- `_on_command_written`
unfoldable pub command_written : Bytes → Target → Outcome
command_written message t =
    let flags = at message 14 in
    handle_scsi (device_of_flags flags) (take 12 (drop 16 message)) (at message 9) flags t

-- The commands that `_dispatch` tells apart.
pub data Inbound : Type 0 where
  in_open_session_reply in_close in_ping in_pong in_reset in_status : Inbound
  in_error in_heartbeat in_command in_data in_unknown : Inbound

unfoldable pub inbound : ℕ → Inbound
inbound cmdid =
    if cmdid == cmd_open_session_reply
    then in_open_session_reply
    else if cmdid == cmd_close
    then in_close
    else if cmdid == cmd_keepalive_ping
    then in_ping
    else if cmdid == cmd_keepalive_pong
    then in_pong
    else if cmdid == cmd_reset_occurred
    then in_reset
    else if cmdid == cmd_status_data
    then in_status
    else if cmdid == cmd_error_occurred
    then in_error
    else if cmdid == cmd_heartbeat
    then in_heartbeat
    else if cmdid == cmd_command_written
    then in_command
    else if cmdid == cmd_data_from_host
    then in_data
    else in_unknown

unfoldable pub run_inbound : Inbound → Bytes → Target → Outcome
run_inbound in_open_session_reply message t = open_session_reply message t
run_inbound in_close message t = done (record t { stopped = true })
run_inbound in_ping message t = done (send_command cmd_keepalive_pong [] false false t)
run_inbound in_pong message t = done t
run_inbound in_reset message t = done (reset_occurred t.read_state t)
run_inbound in_status message t = status_data message t
run_inbound in_error message t =
    done (record t { errors_seen = t.errors_seen ++ at message 8 ∷ [] })
run_inbound in_heartbeat message t = done t
run_inbound in_command message t = command_written message t
run_inbound in_data message t = data_from_host message t
run_inbound in_unknown message t = done t

-- `_dispatch`
unfoldable pub dispatch : Bytes → Target → Outcome
unfolding inbound run_inbound
dispatch message t = run_inbound (inbound (at message 0)) message t
