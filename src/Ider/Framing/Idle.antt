-- ===== src/Ider/Framing/Idle.antt =====
-- Between messages no read is in flight, queued or interrupted: reads are answered at once.
use ansible_collection_intel.Prelude.{ℕ, ◌%◌, ◌==◌, Bool, false, Bytes, take, drop, at}
use ansible_collection_intel.Ider.Media.{Device}
use ansible_collection_intel.Ider.Target.{Target, Outcome, state_of, device_image}
use ansible_collection_intel.Ider.Send.{send_command}
use ansible_collection_intel.Ider.Read.Total.{IsIdle, IsIdle-scsi_read, IsIdle-reset_occurred}
use ansible_collection_intel.Ider.Scsi.{
  Opcode, op_read_6, op_read_10, run_scsi, handle_scsi, opcode, device_of_flags,
}
use ansible_collection_intel.Ider.Dispatch.{
  dispatch, Inbound, in_reset, in_command, run_inbound, inbound, command_written,
}
use ansible_collection_intel.Ider.Moves.{Move, set_reads, Moves-keep}
use ansible_collection_intel.Ider.Safety.{IsSafe}
use ansible_collection_intel.Ider.Safety.Requests.{Behaves, Moves-of_Behaves}
use ansible_collection_intel.Ider.Safety.Dispatch.{Behaves-run_scsi, Behaves-run_inbound}

Move-IsIdle : (t u : Target) → Move false t u → IsIdle t → IsIdle u
unfolding send_command
Move-IsIdle t u (set_reads s q b e) h = cc
Move-IsIdle t u _ h = h

IsIdle-of_Behaves : (t : Target) (o : Outcome) → Behaves false t o → IsIdle t → IsIdle (state_of o)
IsIdle-of_Behaves t o h = Moves-keep IsIdle Move-IsIdle (Moves-of_Behaves false t o h)

IsIdle-run_scsi :
    (op : Opcode) (device : Device) (cdb : Bytes) (dma : Bool) (flags : ℕ) (t : Target)
    → IsSafe t
    → IsIdle t
    → IsIdle (state_of (run_scsi op device (device_image device t) cdb dma flags t))
IsIdle-run_scsi op_read_6 device cdb dma flags t s h =
    unfold run_scsi in IsIdle-scsi_read device _ _ _ dma t h
IsIdle-run_scsi op_read_10 device cdb dma flags t s h =
    unfold run_scsi in IsIdle-scsi_read device _ _ _ dma t h
IsIdle-run_scsi op device cdb dma flags t s h =
    IsIdle-of_Behaves t _ (Behaves-run_scsi false op device cdb dma flags t (λ e. absurd e) s) h

IsIdle-run_inbound :
    (command : Inbound) (message : Bytes) (t : Target)
    → IsSafe t
    → IsIdle t
    → IsIdle (state_of (run_inbound command message t))
IsIdle-run_inbound in_reset message t s h =
    unfold run_inbound in IsIdle-reset_occurred t.read_state t h.0 h
IsIdle-run_inbound in_command message t s h =
    unfold run_inbound command_written handle_scsi in
    IsIdle-run_scsi (opcode (at (take 12 (drop 16 message)) 0)) (device_of_flags (at message 14))
      (take 12 (drop 16 message)) (at message 9 % 2 == 1) (at message 14) t s h
IsIdle-run_inbound command message t s h =
    IsIdle-of_Behaves t _ (Behaves-run_inbound false command message t (λ e. absurd e) s) h

-- Of a safe and idle target, as long as the `send` callable and the files raise nothing of their own:
-- after any message no read is under way or queued and no reset is pending, also when the engine itself
-- raised.
pub IsIdle-dispatch :
    (message : Bytes) (t : Target) → IsSafe t → IsIdle t → IsIdle (state_of (dispatch message t))
unfolding dispatch
IsIdle-dispatch message t s h = IsIdle-run_inbound (inbound (at message 0)) message t s h
