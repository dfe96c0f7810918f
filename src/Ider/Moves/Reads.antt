-- ===== src/Ider/Moves/Reads.antt =====
-- The read path is a sequence of mutations.
use ansible_collection_intel.Prelude.{
  ℕ, zero, suc, Bool, true, refl, not, ◌&&◌, ltb, Option, none, some, List, [], ◌∷◌, Bytes,
}
use ansible_collection_intel.Ider.Media.{Device}
use ansible_collection_intel.Ider.Target.{Target, ReadRequest}
use ansible_collection_intel.Ider.Read.{
  send_chunk, read_chunk, next_read, end_read, after_chunk, pump_step, pump_read, enqueue_read,
  read_work, pump_with, scsi_read, reset_occurred,
}
use ansible_collection_intel.Ider.Moves.{
  send, count_read, set_reads, Moves, here, next, Moves-one, Moves-if, Moves-trans,
}
use ansible_collection_intel.Ider.Moves.Replies.{Moves-end_response, Moves-data_to_host}

Moves-send_chunk :
    (state : ReadRequest) (found : Bytes) (t : Target) → Moves true t (send_chunk state found t).1
unfolding send_chunk
Moves-send_chunk state [] t = Moves-end_response t _ _ _ _ _
Moves-send_chunk state (b ∷ bs) t = Moves-data_to_host t _ _ _ _

Moves-read_chunk : (state : ReadRequest) (t : Target) → Moves true t (read_chunk state t).1
unfolding read_chunk
Moves-read_chunk state t =
    Moves-trans (Moves-one (count_read state.image _)) (Moves-send_chunk state _ _)

Moves-next_read : (queue : List ReadRequest) (t : Target) → Moves true t (next_read queue t)
unfolding next_read
Moves-next_read [] t = Moves-one (set_reads none t.read_queue t.reset_pending refl)
Moves-next_read (r ∷ rs) t = Moves-one (set_reads (some r) rs t.reset_pending refl)

Moves-end_read : (t : Target) → Moves true t (end_read t)
unfolding end_read
Moves-end_read t =
    Moves-if t.reset_pending (next (Moves-one (send _ _ _ _)) (set_reads none [] _ refl))
      (Moves-next_read t.read_queue t)

Moves-after_chunk : (state : ReadRequest) (t : Target) → Moves true t (after_chunk state t)
unfolding after_chunk
Moves-after_chunk state t =
    Moves-if (ltb 0 state.remaining && not t.reset_pending)
      (Moves-one (set_reads (some state) t.read_queue t.reset_pending refl)) (Moves-end_read t)

pub Moves-pump_step : (state : ReadRequest) (t : Target) → Moves true t (pump_step state t)
unfolding pump_step
Moves-pump_step state t =
    let (state', t') = read_chunk state t in
    Moves-trans (Moves-read_chunk state t) (Moves-after_chunk state' t')

Moves-pump_with :
    (again : Target → Target) (s : Option ReadRequest) (t : Target)
    → ((u : Target) → Moves true u (again u))
    → Moves true t (pump_with again s t)
unfolding pump_with
Moves-pump_with again none t h = here
Moves-pump_with again (some state) t h =
    Moves-trans (Moves-pump_step state t) (h (pump_step state t))

pub Moves-pump_read : (fuel : ℕ) (t : Target) → Moves true t (pump_read fuel t)
unfolding pump_read
Moves-pump_read zero t = here
Moves-pump_read (suc fuel) t =
    Moves-pump_with (pump_read fuel) t.read_state t (Moves-pump_read fuel)

Moves-enqueue_read :
    (request : ReadRequest) (s : Option ReadRequest) (t : Target)
    → Moves true t (enqueue_read request s t)
unfolding enqueue_read
Moves-enqueue_read request none t =
    Moves-trans (Moves-one (set_reads (some request) t.read_queue t.reset_pending refl))
      (Moves-pump_read (read_work (some request) t.read_queue) _)
Moves-enqueue_read request (some s) t = Moves-one (set_reads t.read_state _ t.reset_pending refl)

pub Moves-scsi_read :
    (device : Device) (slot : Option ℕ) (lba blocks : ℕ) (dma : Bool) (t : Target)
    → Moves true t (scsi_read device slot lba blocks dma t)
unfolding scsi_read
Moves-scsi_read device none lba blocks dma t = Moves-end_response t _ _ _ _ _
Moves-scsi_read device (some r) lba blocks dma t =
    search (Moves-if, Moves-end_response, Moves-enqueue_read)

pub Moves-reset_occurred : (s : Option ReadRequest) (t : Target) → Moves true t (reset_occurred s t)
unfolding reset_occurred
Moves-reset_occurred none t = Moves-one (send _ _ _ _)
Moves-reset_occurred (some s) t = Moves-one (set_reads t.read_state t.read_queue _ refl)
