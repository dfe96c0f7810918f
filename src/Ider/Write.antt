-- ===== src/Ider/Write.antt =====
-- ider.py, the write path: `_scsi_write_request` and `_on_data_from_host`.
use ansible_collection_intel.Prelude.{
  ℕ, ◌+◌, ◌-◌, ◌*◌, true, false, not, Option, none, some, Bytes, length, take, drop, get_le16, ltb,
  leb, ◌==◌, if◌then◌else◌,
}
use ansible_collection_intel.Errors.{Result, ok, err}
use ansible_collection_intel.Ider.Media.{MediaImage, Device, floppy, cdrom, device_code, write}
use ansible_collection_intel.Ider.Target.{Target, PendingWrite, Outcome, done, raised, put_image}
use ansible_collection_intel.Ider.Send.{send_command_end_response, send_get_data_from_host}

unfoldable pub write_request_at : ℕ → MediaImage → ℕ → ℕ → Target → Target
write_request_at r image lba blocks t =
    if ltb image.blocks (lba + blocks)
    then send_command_end_response true 5 (device_code floppy) 0x21 0 t
    else if blocks == 0
    then send_command_end_response true 0 (device_code floppy) 0 0 t
    else if not image.writable
    then send_command_end_response false 7 (device_code floppy) 0x27 0 t
    else send_get_data_from_host (device_code floppy) (512 * blocks) (record t {
      pending_write = some (record {
        device = floppy;
        image = r;
        byte_offset = lba * 512;
        expected_length = 512 * blocks;
        received = 0;
      });
    })

-- `_scsi_write_request`
unfoldable pub scsi_write_request : Device → Option ℕ → ℕ → ℕ → Target → Target
unfolding write_request_at
scsi_write_request cdrom _ lba blocks t =
    send_command_end_response true 2 (device_code cdrom) 0x3a 0 t
scsi_write_request floppy none lba blocks t =
    send_command_end_response true 2 (device_code floppy) 0x3a 0 t
scsi_write_request floppy (some r) lba blocks t = write_request_at r (t.images r) lba blocks t

-- `pending.received += len(data)`, and the reply once all has arrived
unfoldable pub count_received : PendingWrite → ℕ → Target → Target
count_received pending n t =
    if leb pending.expected_length (pending.received + n)
    then send_command_end_response false 0 (device_code pending.device) 0 0
        (record t { pending_write = none })
    else record t { pending_write = some (record pending { received = pending.received + n }) }

unfoldable pub written : PendingWrite → ℕ → Result MediaImage → Target → Outcome
unfolding count_received
written pending n (ok image) t = done (count_received pending n (put_image pending.image image t))
written pending n (err e) t = raised e t

unfoldable pub accept_data : Option PendingWrite → Bytes → Target → Outcome
unfolding written
accept_data none bytes t = done (send_command_end_response false 5 (device_code floppy) 0x20 0 t)
accept_data (some pending) bytes t =
    if ltb (pending.expected_length - pending.received) (length bytes)
    then done (
        send_command_end_response false 5 (device_code pending.device) 0x21 0
          (record t { pending_write = none }))
    else written pending (length bytes)
        (write (t.images pending.image) (pending.byte_offset + pending.received) bytes) t

-- `_on_data_from_host`
unfoldable pub data_from_host : Bytes → Target → Outcome
unfolding accept_data
data_from_host message t =
    accept_data t.pending_write (take (get_le16 message 9) (drop 14 message)) t
