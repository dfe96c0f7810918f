-- ===== src/Ider/Feed.antt =====
-- ider.py, inbound framing: `feed` and `_peek_length`. `feed_loop` is the `while` loop of `feed`
-- on fuel; every round takes at least eight bytes from the buffer, so the buffer's length is
-- enough (`Framing.Total`).
use ansible_collection_intel.Prelude.{
  Bool, ℕ, zero, suc, ◌+◌, ◌%◌, ◌^◌, true, false, Option, none, some, List, [], ◌∷◌, ◌++◌, Bytes,
  length, take, drop, at, get_le16, get_le32, ltb, ◌==◌, if◌then◌else◌,
}
use ansible_collection_intel.Errors.{Error, Result, ok, err, protocol}
use ansible_collection_intel.Ider.Command.{cmd_open_session_reply, cmd_data_from_host, fixed_length}
use ansible_collection_intel.Ider.Target.{Target, Outcome, done, raised}
use ansible_collection_intel.Ider.Dispatch.{dispatch}

-- The engine: the target, and the fields of the inbound framing.
pub record Engine : Type 0 where
  pub in_seq : ℕ
  pub buf : Bytes
  pub bytes_from_amt : ℕ
  pub target : Target

-- `feed` returns, or raises; in both cases with the engine as it is left.
pub data Fed : Type 0 where
  fed : Engine → Fed
  failed : Error → Engine → Fed

abbrev pub engine_of : Fed → Engine
engine_of (fed s) = s
engine_of (failed e s) = s

-- `_peek_length`: the length of the frame at the front; `none` while it is not known.
unfoldable pub peek_length : Bytes → Result (Option ℕ)
unfolding fixed_length
peek_length buf = elim (fixed_length (at buf 0)) [
  | some n ↦ ok (some n)
  | none ↦
      if at buf 0 == cmd_open_session_reply
      then (if ltb (length buf) 30 then ok none else ok (some (30 + at buf 29)))
      else if at buf 0 == cmd_data_from_host
      then (if ltb (length buf) 14 then ok none else ok (some (14 + get_le16 buf 9)))
      else err protocol
]

-- Stop, drop the buffer and raise.
unfoldable pub tear_down : Engine → Fed
tear_down s = failed protocol (record s { buf = []; target = record s.target { stopped = true } })

-- What the loop knows once `_peek_length` has looked at a buffer of eight bytes or more.
pub data Frame : Type 0 where
  incomplete bad : Frame
  complete : ℕ → Frame

unfoldable pub frame_of_length : Bytes → Result (Option ℕ) → Frame
frame_of_length buf (err e) = bad
frame_of_length buf (ok none) = incomplete
frame_of_length buf (ok (some n)) = if ltb (length buf) n then incomplete else complete n

-- The tests of one round: too few bytes, an unknown command, or a whole frame of `n` bytes.
unfoldable pub next_frame : Bytes → Frame
unfolding peek_length frame_of_length
next_frame buf = if ltb (length buf) 8 then incomplete else frame_of_length buf (peek_length buf)

-- The engine behind a frame that was dispatched.
unfoldable pub take_frame : ℕ → Engine → Target → Engine
take_frame n s t = record s { in_seq = (s.in_seq + 1) % 2 ^ 32; buf = drop n s.buf; target = t }

-- The next round, unless the message has stopped the session.
unfoldable pub go_on : (Engine → Fed) → Bool → Engine → Fed
go_on again true s = fed s
go_on again false s = again s

-- What follows `self._dispatch(message)`.
unfoldable pub after_dispatch : (Engine → Fed) → ℕ → Engine → Outcome → Fed
unfolding go_on
after_dispatch again n s (raised e t) = failed e (take_frame n s t)
after_dispatch again n s (done t) = go_on again t.stopped (take_frame n s t)

-- A whole frame of `n` bytes, whose sequence number is the expected one or not.
unfoldable pub run_frame : (Engine → Fed) → ℕ → Bool → Engine → Fed
unfolding after_dispatch
run_frame again n false s = tear_down s
run_frame again n true s = after_dispatch again n s (dispatch (take n s.buf) s.target)

-- One round of the loop; `again` is the rounds after it.
unfoldable pub feed_round : (Engine → Fed) → Frame → Engine → Fed
unfolding run_frame
feed_round again incomplete s = fed s
feed_round again bad s = tear_down s
feed_round again (complete n) s = run_frame again n (get_le32 s.buf 4 == s.in_seq) s

unfoldable pub feed_loop : ℕ → Engine → Fed
unfolding next_frame feed_round
feed_loop zero s = fed s
feed_loop (suc fuel) s = feed_round (feed_loop fuel) (next_frame s.buf) s

-- The engine once `bytes` have arrived.
abbrev pub buffered : Bytes → Engine → Engine
buffered bytes s = record s {
  buf = s.buf ++ bytes;
  bytes_from_amt = s.bytes_from_amt + length bytes;
}

-- `if self._stopped: raise`, and the loop
unfoldable pub feed_unless : Bool → Bytes → Engine → Fed
unfolding feed_loop
feed_unless true bytes s = failed protocol s
feed_unless false bytes s = feed_loop (length (s.buf ++ bytes)) (buffered bytes s)

-- `feed`
unfoldable pub feed : Bytes → Engine → Fed
unfolding feed_unless
feed bytes s = feed_unless s.target.stopped bytes s

-- The calls that follow, unless this one has raised.
abbrev pub and_then : Fed → (Engine → Fed) → Fed
and_then (failed e s) again = failed e s
and_then (fed s) again = again s

-- A sequence of `feed` calls, up to the first that raises.
unfoldable pub feed_all : List Bytes → Engine → Fed
unfolding feed
feed_all [] s = fed s
feed_all (x ∷ xs) s = and_then (feed x s) (feed_all xs)

unfoldable pub new_engine : Target → Engine
new_engine t = record { in_seq = 0; buf = []; bytes_from_amt = 0; target = t }
