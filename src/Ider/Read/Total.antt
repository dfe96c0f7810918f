-- ===== src/Ider/Read/Total.antt =====
-- `_pump_read` ends, whatever the file yields: a round that sends data shortens the read, and a
-- round that gets none ends it.
use ansible_collection_intel.Prelude.{
  ℕ, zero, suc, ◌+◌, ◌≤◌, ◌<◌, ◌≡◌, refl, inl, inr, Bool, true, false, Bool-cases, not, ◌&&◌,
  Option, none, some, List, [], ◌∷◌, Bytes, ltb, arith, subst, if◌then◌else◌, ◌==◌, ◌∙◌,
}
use ansible_collection_intel.Ider.Media.{Device}
use ansible_collection_intel.Ider.Target.{Target, ReadRequest}
use ansible_collection_intel.Ider.Send.{send_command, send_command_end_response, send_data_to_host}
use ansible_collection_intel.Ider.Read.{
  send_chunk, read_chunk, next_read, end_read, after_chunk, pump_step, pump_with, pump_read,
  queue_work, read_work, enqueue_read, scsi_read, reset_occurred,
}

-- A chunk leaves the queue alone, and what remains to be read is less.
module _ (state : ReadRequest) where
  chunk_shrinks :
      (found : Bytes) (t : Target)
      → ltb 0 (send_chunk state found t).0.remaining ≡ true
      → (send_chunk state found t).0.remaining < state.remaining
  unfolding send_chunk
  chunk_shrinks [] t h = cc
  chunk_shrinks (b ∷ bs) t h = ground arith

  read_queue-send_chunk :
      (found : Bytes) (t : Target) → (send_chunk state found t).1.read_queue ≡ t.read_queue
  unfolding send_chunk send_command_end_response send_data_to_host send_command
  read_queue-send_chunk [] t = refl
  read_queue-send_chunk (b ∷ bs) t = refl

  reset_pending-send_chunk :
      (found : Bytes) (t : Target) → (send_chunk state found t).1.reset_pending ≡ t.reset_pending
  unfolding send_chunk send_command_end_response send_data_to_host send_command
  reset_pending-send_chunk [] t = refl
  reset_pending-send_chunk (b ∷ bs) t = refl

abbrev work : Target → ℕ
work t = read_work t.read_state t.read_queue

work-if :
    (b : Bool) (t u : Target) (n : ℕ) → work t ≤ n → work u ≤ n → work (if b then t else u) ≤ n
work-if true t u n h k = h
work-if false t u n h k = k

work-next_read :
    (queue : List ReadRequest) (t : Target)
    → queue ≡ t.read_queue
    → work (next_read queue t) ≤ queue_work queue
unfolding next_read read_work
work-next_read [] t e = rw (← e) (omega arith)
work-next_read (r ∷ rs) t e = omega arith

work-end_read : (t : Target) → work (end_read t) ≤ queue_work t.read_queue
unfolding end_read read_work
work-end_read t =
    work-if t.reset_pending _ (next_read t.read_queue t) (queue_work t.read_queue) (omega arith)
      (work-next_read t.read_queue t refl)

work-after_chunk :
    (state : ReadRequest) (t : Target) (n : ℕ)
    → (ltb 0 state.remaining ≡ true → state.remaining < n)
    → work (after_chunk state t) ≤ n + queue_work t.read_queue
unfolding after_chunk read_work
work-after_chunk state t n h = elim (Bool-cases (ltb 0 state.remaining && not t.reset_pending)) [
  | inl b ↦ rw b (omega (arith, h (ground arith)))
  | inr b ↦ rw b (omega (arith, work-end_read t))
]

-- One round leaves less to do than there was.
work-pump_step :
    (state : ReadRequest) (t : Target)
    → work (pump_step state t) ≤ state.remaining + queue_work t.read_queue
unfolding pump_step read_chunk
work-pump_step state t =
    let (state', t') = read_chunk state t in
    subst (λ q. work (after_chunk state' t') ≤ state.remaining + queue_work q)
      (read_queue-send_chunk state _ _)
      (work-after_chunk state' t' state.remaining (chunk_shrinks state _ _))

pump_with_ends :
    (again : Target → Target) (fuel : ℕ)
    → ((u : Target) → work u ≤ fuel → (again u).read_state ≡ none)
    → (s : Option ReadRequest) (t : Target) → t.read_state ≡ s
    → read_work s t.read_queue ≤ suc fuel
    → (pump_with again s t).read_state ≡ none
unfolding pump_with read_work
pump_with_ends again fuel rest none t e h = e
pump_with_ends again fuel rest (some state) t e h =
    rest (pump_step state t) (omega (arith, work-pump_step state t))

no_read : (s : Option ReadRequest) (queue : List ReadRequest) → read_work s queue ≤ 0 → s ≡ none
unfolding read_work
no_read none queue h = refl
no_read (some r) queue h = absurd (omega arith)

-- With fuel of at least the bytes and requests that are left, `_pump_read` ends by its own test, with
-- no request under way, whatever the files yield.
pub pump_read_ends : (fuel : ℕ) (t : Target) → work t ≤ fuel → (pump_read fuel t).read_state ≡ none
unfolding pump_read
pump_read_ends zero t h = no_read t.read_state t.read_queue h
pump_read_ends (suc fuel) t h =
    pump_with_ends (pump_read fuel) fuel (pump_read_ends fuel) t.read_state t refl h

-- Nothing queued and no reset pending: so it is between messages, and while a read is sent.
abbrev pub IsAlone : Target → Type 0
IsAlone t = (t.read_queue ≡ []) × (t.reset_pending ≡ false)

-- Between messages no read is in flight either.
abbrev pub IsIdle : Target → Type 0
IsIdle t = (t.read_state ≡ none) × IsAlone t

pub IsAlone-read_chunk :
    (state : ReadRequest) (t : Target) → IsAlone t → IsAlone (read_chunk state t).1
unfolding read_chunk
IsAlone-read_chunk state t h =
    (read_queue-send_chunk state _ _ ∙ h.0, reset_pending-send_chunk state _ _ ∙ h.1)

IsAlone-next_read :
    (queue : List ReadRequest) (t : Target) → queue ≡ [] → IsAlone t → IsAlone (next_read queue t)
unfolding next_read
IsAlone-next_read [] t e h = h
IsAlone-next_read (r ∷ rs) t e h = cc

IsAlone-if :
    (b : Bool) (t u : Target) → (b ≡ true → IsAlone t) → IsAlone u → IsAlone (if b then t else u)
IsAlone-if true t u h k = h refl
IsAlone-if false t u h k = k

IsAlone-after_chunk : (state : ReadRequest) (t : Target) → IsAlone t → IsAlone (after_chunk state t)
unfolding after_chunk end_read
IsAlone-after_chunk state t h =
    IsAlone-if (ltb 0 state.remaining && not t.reset_pending) _ _ (λ b. h)
      (IsAlone-if t.reset_pending _ (next_read t.read_queue t) (λ b. cc (h.1))
        (IsAlone-next_read t.read_queue t h.0 h))

pub IsAlone-pump_step : (state : ReadRequest) (t : Target) → IsAlone t → IsAlone (pump_step state t)
unfolding pump_step
IsAlone-pump_step state t h =
    let (state', t') = read_chunk state t in
    IsAlone-after_chunk state' t' (IsAlone-read_chunk state t h)

IsAlone-pump_with :
    (again : Target → Target)
    → ((u : Target) → IsAlone u → IsAlone (again u))
    → (s : Option ReadRequest) (t : Target) → IsAlone t
    → IsAlone (pump_with again s t)
unfolding pump_with
IsAlone-pump_with again rest none t h = h
IsAlone-pump_with again rest (some state) t h = rest _ (IsAlone-pump_step state t h)

IsAlone-pump_read : (fuel : ℕ) (t : Target) → IsAlone t → IsAlone (pump_read fuel t)
unfolding pump_read
IsAlone-pump_read zero t h = h
IsAlone-pump_read (suc fuel) t h =
    IsAlone-pump_with (pump_read fuel) (IsAlone-pump_read fuel) t.read_state t h

IsIdle-enqueue_read :
    (request : ReadRequest) (s : Option ReadRequest) (t : Target)
    → s ≡ none
    → IsAlone t
    → IsIdle (enqueue_read request s t)
unfolding enqueue_read
IsIdle-enqueue_read request none t e h = (
  pump_read_ends (read_work (some request) t.read_queue) (record t { read_state = some request })
      (omega arith),
  IsAlone-pump_read (read_work (some request) t.read_queue) (record t { read_state = some request })
      h,
)
IsIdle-enqueue_read request (some s) t e h = cc

IsIdle-if : (b : Bool) (t u : Target) → IsIdle t → IsIdle u → IsIdle (if b then t else u)
IsIdle-if true t u h k = h
IsIdle-if false t u h k = k

IsIdle-end_response :
    (error : Bool) (sense device asc asq : ℕ) (t : Target)
    → IsIdle t
    → IsIdle (send_command_end_response error sense device asc asq t)
unfolding send_command_end_response send_command
IsIdle-end_response error sense device asc asq t h = h

-- A read command is answered in full before the next message is looked at.
pub IsIdle-scsi_read :
    (device : Device) (slot : Option ℕ) (lba blocks : ℕ) (dma : Bool) (t : Target)
    → IsIdle t
    → IsIdle (scsi_read device slot lba blocks dma t)
unfolding scsi_read
IsIdle-scsi_read device none lba blocks dma t h = IsIdle-end_response _ _ _ _ _ t h
IsIdle-scsi_read device (some r) lba blocks dma t h =
    IsIdle-if (ltb (t.images r).blocks (lba + blocks)) _ _ (IsIdle-end_response _ _ _ _ _ t h) (
      IsIdle-if (blocks == 0) _ _ (IsIdle-end_response _ _ _ _ _ t h)
        (IsIdle-enqueue_read _ t.read_state t h.0 h.1))

pub IsIdle-reset_occurred :
    (s : Option ReadRequest) (t : Target) → s ≡ none → IsIdle t → IsIdle (reset_occurred s t)
unfolding reset_occurred send_command
IsIdle-reset_occurred none t e h = h
IsIdle-reset_occurred (some s) t e h = cc
