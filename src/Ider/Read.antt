-- ===== src/Ider/Read.antt =====
-- ider.py, the read path: `_scsi_read` and `_pump_read`. One call of `pump_step` is one round of
-- the `while` loop, and `read_work` is the fuel that the loop is given.
pub mod Total
pub mod Frames
pub mod Delivery
use ansible_collection_intel.Prelude.{
  ℕ, zero, suc, ◌+◌, ◌-◌, ◌*◌, ◌^◌, Bool, true, false, not, ◌&&◌, Option, none, some, List, [], ◌∷◌,
  ◌++◌, Bytes, length, min, ltb, ◌==◌, if◌then◌else◌,
}
use ansible_collection_intel.Ider.Command.{cmd_reset_occurred_response}
use ansible_collection_intel.Ider.Media.{MediaImage, Device, device_code, read}
use ansible_collection_intel.Ider.Target.{Target, ReadRequest, put_image}
use ansible_collection_intel.Ider.Send.{send_command, send_command_end_response, send_data_to_host}

-- `min(state.remaining, readbfr) if readbfr else state.remaining`
unfoldable pub chunk_size : ℕ → ℕ → ℕ
chunk_size readbfr remaining = if readbfr == 0 then remaining else min remaining readbfr

-- One frame for the request at hand: the request afterwards, and the state.
unfoldable pub send_chunk : ReadRequest → Bytes → Target → ReadRequest × Target
send_chunk state [] t = (
  record state { remaining = 0 },
  send_command_end_response false 3 (device_code state.device) 0x11 0 t,
)
send_chunk state (b ∷ bs) t =
    let n = length (b ∷ bs) in
    let state' = record state {
      byte_offset = state.byte_offset + n;
      remaining = state.remaining - n;
    } in
    (
      state',
      send_data_to_host (device_code state.device) (state'.remaining == 0) (b ∷ bs) state.dma t,
    )

-- The read of the chunk from the image, and its frame.
unfoldable pub read_chunk : ReadRequest → Target → ReadRequest × Target
unfolding chunk_size read send_chunk
read_chunk state t =
    let (found, image) =
      read (t.images state.image) state.byte_offset
        (chunk_size t.session_info.readbfr state.remaining) in
    send_chunk state found (put_image state.image image t)

-- `self._read_queue.pop(0)`, where the queue is not empty
unfoldable pub next_read : List ReadRequest → Target → Target
next_read [] t = record t { read_state = none }
next_read (r ∷ rs) t = record t { read_state = some r; read_queue = rs }

-- What the loop does once the request at hand is finished or a reset interrupts it.
unfoldable pub end_read : Target → Target
unfolding next_read
end_read t =
    if t.reset_pending
    then record (send_command cmd_reset_occurred_response [] false false t) {
      read_state = none;
      read_queue = [];
      reset_pending = false;
    }
    else next_read t.read_queue t

-- Go on with the same read, or end it.
unfoldable pub after_chunk : ReadRequest → Target → Target
unfolding end_read
after_chunk state t =
    if ltb 0 state.remaining && not t.reset_pending
    then record t { read_state = some state }
    else end_read t

unfoldable pub pump_step : ReadRequest → Target → Target
unfolding read_chunk after_chunk
pump_step state t = let (state', t') = read_chunk state t in after_chunk state' t'

-- `while self._read_state is not None`: one round, and `again` for the rounds after it
unfoldable pub pump_with : (Target → Target) → Option ReadRequest → Target → Target
pump_with again none t = t
pump_with again (some state) t = again (pump_step state t)

-- `_pump_read`, with fuel
unfoldable pub pump_read : ℕ → Target → Target
unfolding pump_with
pump_read zero t = t
pump_read (suc fuel) t = pump_with (pump_read fuel) t.read_state t

unfoldable pub queue_work : List ReadRequest → ℕ
queue_work [] = 0
queue_work (r ∷ rs) = suc (r.remaining + queue_work rs)

unfoldable pub read_work : Option ReadRequest → List ReadRequest → ℕ
unfolding queue_work
read_work none queue = queue_work queue
read_work (some r) queue = suc (r.remaining + queue_work queue)

unfoldable pub enqueue_read : ReadRequest → Option ReadRequest → Target → Target
unfolding pump_read read_work
enqueue_read request (some _) t = record t { read_queue = t.read_queue ++ request ∷ [] }
enqueue_read request none t =
    pump_read (read_work (some request) t.read_queue) (record t { read_state = some request })

unfoldable pub read_at : Device → ℕ → MediaImage → ℕ → ℕ → Bool → Target → Target
unfolding enqueue_read
read_at device r image lba blocks dma t =
    if ltb image.blocks (lba + blocks)
    then send_command_end_response true 5 (device_code device) 0x21 0 t
    else if blocks == 0
    then send_command_end_response true 0 (device_code device) 0 0 t
    else enqueue_read
        (record {
          device = device;
          image = r;
          byte_offset = lba * 2 ^ image.sector_shift;
          remaining = blocks * 2 ^ image.sector_shift;
          dma = dma;
        })
        t.read_state t

-- `_scsi_read`
unfoldable pub scsi_read : Device → Option ℕ → ℕ → ℕ → Bool → Target → Target
unfolding read_at
scsi_read device none lba blocks dma t =
    send_command_end_response true 2 (device_code device) 0x3a 0 t
scsi_read device (some r) lba blocks dma t = read_at device r (t.images r) lba blocks dma t

-- `_on_reset_occurred`
unfoldable pub reset_occurred : Option ReadRequest → Target → Target
reset_occurred none t = send_command cmd_reset_occurred_response [] false false t
reset_occurred (some _) t = record t { reset_pending = true }
