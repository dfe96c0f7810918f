-- ===== src/Ider/Safety/Dispatch.antt =====
-- Every message of the host is a sequence of mutations from a safe state.
use ansible_collection_intel.Prelude.{
  ℕ, ◌≡◌, refl, inl, inr, Bool, true, false, Option, none, some, Bytes, take, drop, ◌==◌, ◌%◌, at,
  get_le32, if◌then◌else◌,
}
use ansible_collection_intel.Errors.{protocol, struct_error}
use ansible_collection_intel.Ider.Media.{MediaImage, Device}
use ansible_collection_intel.Ider.Target.{
  Target, OpenSessionInfo, Outcome, done, raised, device_image,
}
use ansible_collection_intel.Ider.Send.{send_disable_enable_features}
use ansible_collection_intel.Ider.Replies.{read_capacity, capacity_reply}
use ansible_collection_intel.Ider.Scsi.{
  Opcode, op_test_unit_ready, op_read_6, op_write_6, op_mode_sense_6, op_start_stop,
  op_allow_medium_removal, op_read_format_capacities, op_read_capacity, op_read_10, op_write_10,
  op_read_toc, op_get_configuration, op_get_event_status, op_read_disc_info, op_mode_select_10,
  op_mode_sense_10, op_get_performance, op_other, run_scsi, handle_scsi, allow_medium_removal,
  opcode, device_of_flags,
}
use ansible_collection_intel.Ider.Dispatch.{
  send_start_mode, session_info_of, accept_session, open_session_reply, status_data,
  command_written, dispatch, Inbound, in_open_session_reply, in_close, in_ping, in_pong, in_reset,
  in_status, in_error, in_heartbeat, in_command, in_data, in_unknown, run_inbound, inbound,
}
use ansible_collection_intel.Ider.Moves.{
  send, set_session, set_stopped, set_enabled, set_toggle, set_errors, Moves, here, next, Moves-one,
}
use ansible_collection_intel.Ider.Moves.Replies.{
  Moves-end_response, Moves-data_to_host, Moves-test_unit_ready, Moves-mode_sense_6,
  Moves-read_format_capacities, Moves-read_toc, Moves-get_configuration, Moves-get_event_status,
  Moves-mode_sense_10,
}
use ansible_collection_intel.Ider.Moves.Reads.{Moves-scsi_read, Moves-reset_occurred}
use ansible_collection_intel.Ider.Safety.{IsSafe}
use ansible_collection_intel.Ider.Safety.Requests.{
  Behaves, Moves-scsi_write_request, Behaves-data_from_host,
}

Behaves-if :
    (reads : Bool) (t : Target) (b : Bool) (x y : Outcome)
    → Behaves reads t x
    → Behaves reads t y
    → Behaves reads t (if b then x else y)
Behaves-if reads t true x y h k = h
Behaves-if reads t false x y h k = k

Behaves-capacity_reply :
    (reads : Bool) (device : Device) (blocks flags : ℕ) (dma : Bool) (t : Target)
    → Behaves reads t (capacity_reply device blocks flags dma t)
unfolding capacity_reply
Behaves-capacity_reply reads device blocks flags dma t =
    Behaves-if reads t _ (done _) (raised struct_error t) (Moves-data_to_host t _ _ _ _)
      (here, inl refl)

Behaves-read_capacity :
    (reads : Bool) (device : Device) (image : Option MediaImage) (flags : ℕ) (dma : Bool)
    (t : Target)
    → Behaves reads t (read_capacity device image flags dma t)
unfolding read_capacity
Behaves-read_capacity reads device none flags dma t = Moves-end_response t _ _ _ _ _
Behaves-read_capacity reads device (some image) flags dma t =
    Behaves-if reads t _ (done _) (capacity_reply device image.blocks flags dma t)
      (Moves-end_response t _ _ _ _ _)
      (Behaves-capacity_reply reads device image.blocks flags dma t)

Moves-allow_medium_removal :
    {reads : Bool} (device : Device) (slot : Option ℕ) (t : Target)
    → Moves reads t (allow_medium_removal device slot t)
unfolding allow_medium_removal
Moves-allow_medium_removal device none t = Moves-end_response t _ _ _ _ _
Moves-allow_medium_removal device (some r) t = Moves-end_response t _ _ _ _ _

-- The commands that read sectors are those that touch the read in flight.
abbrev pub ReadsSectors : Opcode → Type 0
ReadsSectors op_read_6 = Unit
ReadsSectors op_read_10 = Unit
ReadsSectors _ = ⊥

pub Behaves-run_scsi :
    (reads : Bool) (op : Opcode) (device : Device) (cdb : Bytes) (dma : Bool) (flags : ℕ)
    (t : Target)
    → (ReadsSectors op → reads ≡ true)
    → IsSafe t
    → Behaves reads t (run_scsi op device (device_image device t) cdb dma flags t)
unfolding run_scsi
Behaves-run_scsi reads op_test_unit_ready device cdb dma flags t h s =
    Moves-test_unit_ready device _ t
Behaves-run_scsi reads op_read_6 device cdb dma flags t h s =
    rw (h tt) (Moves-scsi_read device _ _ _ dma t)
Behaves-run_scsi reads op_write_6 device cdb dma flags t h s =
    Moves-scsi_write_request device _ _ t s
Behaves-run_scsi reads op_mode_sense_6 device cdb dma flags t h s =
    Moves-mode_sense_6 device _ cdb dma t
Behaves-run_scsi reads op_start_stop device cdb dma flags t h s = Moves-end_response t _ _ _ _ _
Behaves-run_scsi reads op_allow_medium_removal device cdb dma flags t h s =
    Moves-allow_medium_removal device _ t
Behaves-run_scsi reads op_read_format_capacities device cdb dma flags t h s =
    Moves-read_format_capacities device _ dma t
Behaves-run_scsi reads op_read_capacity device cdb dma flags t h s =
    Behaves-read_capacity reads device _ flags dma t
Behaves-run_scsi reads op_read_10 device cdb dma flags t h s =
    rw (h tt) (Moves-scsi_read device _ _ _ dma t)
Behaves-run_scsi reads op_write_10 device cdb dma flags t h s =
    Moves-scsi_write_request device _ _ t s
Behaves-run_scsi reads op_read_toc device cdb dma flags t h s = Moves-read_toc device cdb dma t
Behaves-run_scsi reads op_get_configuration device cdb dma flags t h s =
    Moves-get_configuration device cdb dma t
Behaves-run_scsi reads op_get_event_status device cdb dma flags t h s =
    Moves-get_event_status device _ cdb dma t
Behaves-run_scsi reads op_read_disc_info device cdb dma flags t h s = Moves-end_response t _ _ _ _ _
Behaves-run_scsi reads op_mode_select_10 device cdb dma flags t h s = Moves-end_response t _ _ _ _ _
Behaves-run_scsi reads op_mode_sense_10 device cdb dma flags t h s =
    Moves-mode_sense_10 device _ cdb dma t
Behaves-run_scsi reads op_get_performance device cdb dma flags t h s = Moves-data_to_host t _ _ _ _
Behaves-run_scsi reads op_other device cdb dma flags t h s = Moves-end_response t _ _ _ _ _

Behaves-send_start_mode :
    (reads : Bool) (s t : Target) → Moves reads s t → Behaves reads s (send_start_mode t)
unfolding send_start_mode send_disable_enable_features
Behaves-send_start_mode reads s t m =
    Behaves-if reads s _ (done _) (raised struct_error t) (next m (send _ _ _ _)) (m, inl refl)

Behaves-accept_session :
    (reads : Bool) (info : OpenSessionInfo) (t : Target) → Behaves reads t (accept_session info t)
unfolding accept_session
Behaves-accept_session reads info t =
    Behaves-if reads t _ (raised protocol _) (send_start_mode _)
      (Moves-one set_stopped, inr (refl, refl))
      (Behaves-send_start_mode reads t _ (Moves-one (set_session info)))

Behaves-status_data :
    (reads : Bool) (message : Bytes) (t : Target) → Behaves reads t (status_data message t)
unfolding status_data
Behaves-status_data reads message t =
    Behaves-if reads t (at message 8 == 1) _ _
      (Behaves-if reads t (get_le32 message 9 % 2 == 1) (send_start_mode t) (done t)
        (Behaves-send_start_mode reads t t here) here)
      (Behaves-if reads t (at message 8 == 2) (done _) _ (Moves-one (set_enabled _))
        (Behaves-if reads t (at message 8 == 3) (done _) (done t) (Moves-one (set_toggle _)) here))

-- The messages that touch the read in flight.
abbrev pub TouchesReads : Inbound → Bytes → Type 0
TouchesReads in_reset message = Unit
TouchesReads in_command message = ReadsSectors (opcode (at (take 12 (drop 16 message)) 0))
TouchesReads _ message = ⊥

pub Behaves-run_inbound :
    (reads : Bool) (command : Inbound) (message : Bytes) (t : Target)
    → (TouchesReads command message → reads ≡ true)
    → IsSafe t
    → Behaves reads t (run_inbound command message t)
unfolding run_inbound open_session_reply command_written handle_scsi
Behaves-run_inbound reads in_open_session_reply message t h s =
    Behaves-accept_session reads (session_info_of message) t
Behaves-run_inbound reads in_close message t h s = Moves-one set_stopped
Behaves-run_inbound reads in_ping message t h s = Moves-one (send _ _ _ _)
Behaves-run_inbound reads in_pong message t h s = here
Behaves-run_inbound reads in_reset message t h s = rw (h tt) (Moves-reset_occurred t.read_state t)
Behaves-run_inbound reads in_status message t h s = Behaves-status_data reads message t
Behaves-run_inbound reads in_error message t h s = Moves-one (set_errors _)
Behaves-run_inbound reads in_heartbeat message t h s = here
Behaves-run_inbound reads in_command message t h s =
    Behaves-run_scsi reads (opcode (at (take 12 (drop 16 message)) 0))
      (device_of_flags (at message 14)) (take 12 (drop 16 message)) (at message 9 % 2 == 1)
      (at message 14) t h s
Behaves-run_inbound reads in_data message t h s = Behaves-data_from_host reads message t s
Behaves-run_inbound reads in_unknown message t h s = here

pub Behaves-dispatch :
    (message : Bytes) (t : Target) → IsSafe t → Behaves true t (dispatch message t)
unfolding dispatch
Behaves-dispatch message t s =
    Behaves-run_inbound true (inbound (at message 0)) message t (λ h. refl) s
