-- ===== src/Ider/Scsi.antt =====
-- ider.py, `_handle_scsi`: from the command's bytes to its handler.
use ansible_collection_intel.Prelude.{
  ℕ, ◌+◌, ◌*◌, ◌/◌, ◌%◌, Bool, true, false, ◌||◌, Option, none, some, Bytes, at, get_be16, get_be32,
  ◌==◌, if◌then◌else◌,
}
use ansible_collection_intel.Ider.Canned.{get_performance_reply}
use ansible_collection_intel.Ider.Media.{MediaImage, Device, floppy, cdrom, device_code}
use ansible_collection_intel.Ider.Target.{Target, Outcome, done, device_image}
use ansible_collection_intel.Ider.Send.{send_command_end_response, send_data_to_host}
use ansible_collection_intel.Ider.Read.{scsi_read}
use ansible_collection_intel.Ider.Write.{scsi_write_request}
use ansible_collection_intel.Ider.Replies.{
  test_unit_ready, mode_sense_6, read_format_capacities, read_capacity, read_toc, get_configuration,
  get_event_status, mode_sense_10,
}

-- `op` of `_handle_scsi`, by the names in its comments.
pub data Opcode : Type 0 where
  op_test_unit_ready op_read_6 op_write_6 op_mode_sense_6 op_start_stop : Opcode
  op_allow_medium_removal op_read_format_capacities op_read_capacity op_read_10 : Opcode
  op_write_10 op_read_toc op_get_configuration op_get_event_status : Opcode
  op_read_disc_info op_mode_select_10 op_mode_sense_10 op_get_performance op_other : Opcode

unfoldable pub opcode : ℕ → Opcode
opcode op =
    if op == 0x00
    then op_test_unit_ready
    else if op == 0x08
    then op_read_6
    else if op == 0x0a
    then op_write_6
    else if op == 0x1a
    then op_mode_sense_6
    else if op == 0x1b
    then op_start_stop
    else if op == 0x1e
    then op_allow_medium_removal
    else if op == 0x23
    then op_read_format_capacities
    else if op == 0x25
    then op_read_capacity
    else if op == 0x28
    then op_read_10
    else if op == 0x2a || op == 0x2e
    then op_write_10
    else if op == 0x43
    then op_read_toc
    else if op == 0x46
    then op_get_configuration
    else if op == 0x4a
    then op_get_event_status
    else if op == 0x51
    then op_read_disc_info
    else if op == 0x55
    then op_mode_select_10
    else if op == 0x5a
    then op_mode_sense_10
    else if op == 0xac
    then op_get_performance
    else op_other

-- `((cdb[1] & 0x1F) << 16) | (cdb[2] << 8) | cdb[3]` and `cdb[4] or 256`
unfoldable pub lba_6 : Bytes → ℕ
lba_6 cdb = at cdb 1 % 32 * 65536 + at cdb 2 * 256 + at cdb 3

unfoldable pub blocks_6 : Bytes → ℕ
blocks_6 cdb = if at cdb 4 == 0 then 256 else at cdb 4

-- `image`, the object at the reference.
abbrev pub image_at : Target → Option ℕ → Option MediaImage
image_at t none = none
image_at t (some r) = some (t.images r)

unfoldable pub allow_medium_removal : Device → Option ℕ → Target → Target
allow_medium_removal device none t = send_command_end_response true 2 (device_code device) 0x3a 0 t
allow_medium_removal device (some _) t = send_command_end_response true 0 (device_code device) 0 0 t

unfoldable pub run_scsi : Opcode → Device → Option ℕ → Bytes → Bool → ℕ → Target → Outcome
unfolding allow_medium_removal lba_6 blocks_6
run_scsi op_test_unit_ready device slot cdb dma flags t = done (test_unit_ready device slot t)
run_scsi op_read_6 device slot cdb dma flags t =
    done (scsi_read device slot (lba_6 cdb) (blocks_6 cdb) dma t)
run_scsi op_write_6 device slot cdb dma flags t =
    done (scsi_write_request device slot (lba_6 cdb) (blocks_6 cdb) t)
run_scsi op_mode_sense_6 device slot cdb dma flags t =
    done (mode_sense_6 device (image_at t slot) cdb dma t)
run_scsi op_start_stop device slot cdb dma flags t =
    done (send_command_end_response true 0 (device_code device) 0 0 t)
run_scsi op_allow_medium_removal device slot cdb dma flags t =
    done (allow_medium_removal device slot t)
run_scsi op_read_format_capacities device slot cdb dma flags t =
    done (read_format_capacities device (image_at t slot) dma t)
run_scsi op_read_capacity device slot cdb dma flags t =
    read_capacity device (image_at t slot) flags dma t
run_scsi op_read_10 device slot cdb dma flags t =
    done (scsi_read device slot (get_be32 cdb 2) (get_be16 cdb 7) dma t)
run_scsi op_write_10 device slot cdb dma flags t =
    done (scsi_write_request device slot (get_be32 cdb 2) (get_be16 cdb 7) t)
run_scsi op_read_toc device slot cdb dma flags t = done (read_toc device cdb dma t)
run_scsi op_get_configuration device slot cdb dma flags t =
    done (get_configuration device cdb dma t)
run_scsi op_get_event_status device slot cdb dma flags t =
    done (get_event_status device slot cdb dma t)
run_scsi op_read_disc_info device slot cdb dma flags t =
    done (send_command_end_response false 5 (device_code device) 0x20 0 t)
run_scsi op_mode_select_10 device slot cdb dma flags t =
    done (send_command_end_response true 5 (device_code device) 0x20 0 t)
run_scsi op_mode_sense_10 device slot cdb dma flags t =
    done (mode_sense_10 device (image_at t slot) cdb dma t)
run_scsi op_get_performance device slot cdb dma flags t =
    done (send_data_to_host (device_code device) true get_performance_reply dma t)
run_scsi op_other device slot cdb dma flags t =
    done (send_command_end_response false 5 (device_code device) 0x20 0 t)

-- `_handle_scsi`
unfoldable pub handle_scsi : Device → Bytes → ℕ → ℕ → Target → Outcome
unfolding run_scsi opcode
handle_scsi device cdb feature_register device_flags t =
    run_scsi (opcode (at cdb 0)) device (device_image device t) cdb (feature_register % 2 == 1)
      device_flags t

-- `DEVICE_CDROM if device_flags & 0x10 else DEVICE_FLOPPY`
unfoldable pub device_of_flags : ℕ → Device
device_of_flags flags = if flags / 16 % 2 == 1 then cdrom else floppy
