-- ===== src/Ider/Moves.antt =====
-- The primitive mutations of the IDE-R target. Every handler of ider.py is a sequence of them
-- (`Moves.Replies`, `Moves.Reads`, `Safety.Dispatch`), so an invariant is proved once for each.
-- Only a sequence marked `true` may touch the read in flight, its queue and the pending reset.
pub mod Replies
pub mod Reads
use ansible_collection_intel.Prelude.{
  ℕ, ◌+◌, ◌-◌, ◌≤◌, ◌<◌, ◌≡◌, Bool, true, false, Option, none, some, List, Bytes, length, leb,
  if◌then◌else◌,
}
use ansible_collection_intel.Ider.Media.{MediaImage, overwrite}
use ansible_collection_intel.Ider.Target.{
  Target, PendingWrite, ReadRequest, OpenSessionInfo, put_image,
}
use ansible_collection_intel.Ider.Send.{send_command}

-- The image after a write of `bytes` at `offset`.
abbrev pub image_written : MediaImage → ℕ → Bytes → MediaImage
image_written image offset bytes = record image {
  content = overwrite image.content offset bytes;
  bytes_written = image.bytes_written + length bytes;
}

-- The pending write once `n` more bytes have arrived.
abbrev pub after_data : PendingWrite → ℕ → Option PendingWrite
after_data p n =
    if leb p.expected_length (p.received + n)
    then none
    else some (record p { received = p.received + n })

-- What a pending write promises about its image.
pub record PendingFits (image : MediaImage) (p : PendingWrite) : Type 0 where
  pub writable : image.writable ≡ true
  pub inside : p.byte_offset + p.expected_length ≤ image.size
  pub unfinished : p.received < p.expected_length

pub data Move (reads : Bool) (t : Target) : Target → Type 0 where
  send :
      (cmdid : ℕ) (payload : Bytes) (completed dma : Bool)
      → Move reads t (send_command cmdid payload completed dma t)
  count_read : (r n : ℕ) → Move reads t (put_image r (record (t.images r) { bytes_read = n }) t)
  report_change :
      (r : ℕ) → Move reads t (put_image r (record (t.images r) { media_change_reported = true }) t)
  set_session :
      (info : OpenSessionInfo)
      → Move reads t (record t { session_info = info; session_open = true })
  set_stopped : Move reads t (record t { stopped = true })
  set_enabled : (b : Bool) → Move reads t (record t { enabled = b })
  set_toggle : (b : Option Bool) → Move reads t (record t { feature_toggle_ok = b })
  set_errors : (es : List ℕ) → Move reads t (record t { errors_seen = es })
  set_reads :
      (s : Option ReadRequest) (q : List ReadRequest) (b : Bool)
      → reads ≡ true
      → Move reads t (record t { read_state = s; read_queue = q; reset_pending = b })
  drop_write : Move reads t (record t { pending_write = none })
  ask_write :
      (p : PendingWrite)
      → PendingFits (t.images p.image) p
      → Move reads t (record t { pending_write = some p })
  put_data :
      (p : PendingWrite) (bytes : Bytes)
      → t.pending_write ≡ some p
      → length bytes ≤ p.expected_length - p.received
      → Move reads t
          (record (put_image p.image
            (image_written (t.images p.image) (p.byte_offset + p.received) bytes)
            t) { pending_write = after_data p (length bytes) })

pub data Moves (reads : Bool) (s : Target) : Target → Type 0 where
  here : Moves reads s s
  next : {t u : Target} → Moves reads s t → Move reads t u → Moves reads s u

pub Moves-trans :
    {reads : Bool} {s t u : Target} → Moves reads s t → Moves reads t u → Moves reads s u
Moves-trans m here = m
Moves-trans m (next n v) = next (Moves-trans m n) v

pub Moves-one : {reads : Bool} {s t : Target} → Move reads s t → Moves reads s t
Moves-one v = next here v

-- An invariant of the single mutations is one of their sequences.
pub Moves-keep :
    {reads : Bool} (P : Target → Type 0)
    → ((t u : Target) → Move reads t u → P t → P u)
    → {s t : Target} → Moves reads s t
    → P s
    → P t
Moves-keep P step here h = h
Moves-keep P step (next {t} {u} m v) h = step t u v (Moves-keep P step m h)

pub Moves-if :
    {reads : Bool} {s t u : Target} (b : Bool)
    → Moves reads s t
    → Moves reads s u
    → Moves reads s (if b then t else u)
Moves-if true m n = m
Moves-if false m n = n
