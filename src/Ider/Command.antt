-- ===== src/Ider/Command.antt =====
-- ider.py, command ids and the lengths of the fixed-length inbound commands.
use ansible_collection_intel.Prelude.{ℕ, Option, none, some, ◌==◌, if◌then◌else◌}

abbrev pub cmd_open_session : ℕ
cmd_open_session = 0x40

abbrev pub cmd_open_session_reply : ℕ
cmd_open_session_reply = 0x41

abbrev pub cmd_close : ℕ
cmd_close = 0x43

abbrev pub cmd_keepalive_ping : ℕ
cmd_keepalive_ping = 0x44

abbrev pub cmd_keepalive_pong : ℕ
cmd_keepalive_pong = 0x45

abbrev pub cmd_reset_occurred : ℕ
cmd_reset_occurred = 0x46

abbrev pub cmd_reset_occurred_response : ℕ
cmd_reset_occurred_response = 0x47

abbrev pub cmd_disable_enable_features : ℕ
cmd_disable_enable_features = 0x48

abbrev pub cmd_status_data : ℕ
cmd_status_data = 0x49

abbrev pub cmd_error_occurred : ℕ
cmd_error_occurred = 0x4a

abbrev pub cmd_heartbeat : ℕ
cmd_heartbeat = 0x4b

abbrev pub cmd_command_written : ℕ
cmd_command_written = 0x50

abbrev pub cmd_command_end_response : ℕ
cmd_command_end_response = 0x51

abbrev pub cmd_get_data_from_host : ℕ
cmd_get_data_from_host = 0x52

abbrev pub cmd_data_from_host : ℕ
cmd_data_from_host = 0x53

abbrev pub cmd_data_to_host : ℕ
cmd_data_to_host = 0x54

-- START_MODE_ON_REBOOT, START_MODE_GRACEFUL, START_MODE_IMMEDIATE
abbrev pub start_mode_on_reboot : ℕ
start_mode_on_reboot = 0x09

abbrev pub start_mode_graceful : ℕ
start_mode_graceful = 0x11

abbrev pub start_mode_immediate : ℕ
start_mode_immediate = 0x19

abbrev pub max_read_write_buffer : ℕ
max_read_write_buffer = 8192

-- `_FIXED_LENGTH_COMMANDS.get(cmdid)`
unfoldable pub fixed_length : ℕ → Option ℕ
fixed_length cmdid =
    if cmdid == cmd_close
    then some 8
    else if cmdid == cmd_keepalive_ping
    then some 8
    else if cmdid == cmd_keepalive_pong
    then some 8
    else if cmdid == cmd_heartbeat
    then some 8
    else if cmdid == cmd_reset_occurred
    then some 9
    else if cmdid == cmd_status_data
    then some 13
    else if cmdid == cmd_error_occurred
    then some 11
    else if cmdid == cmd_command_written
    then some 28
    else none
