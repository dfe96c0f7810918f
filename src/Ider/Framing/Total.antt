-- ===== src/Ider/Framing/Total.antt =====
-- The loop of `feed` ends: every frame has at least eight bytes, so the length of the buffer is
-- enough fuel, and more fuel changes nothing.
use ansible_collection_intel.Prelude.{
  sym, ◌∙◌, ℕ, zero, suc, ◌≤◌, ◌<◌, ◌≡◌, refl, ◌⊎◌, inl, inr, Bool, true, false, ◌++◌, Bytes,
  length, take, get_le32, ◌==◌, lt→ltb, length-drop, length-append, get_or-append, arith,
}
use ansible_collection_intel.Ider.Target.{Target, Outcome, done, raised}
use ansible_collection_intel.Ider.Dispatch.{dispatch}
use ansible_collection_intel.Ider.Feed.{
  Engine, Fed, fed, failed, Frame, incomplete, bad, complete, next_frame, take_frame, tear_down,
  go_on, after_dispatch, run_frame, feed_round, feed_loop,
}

-- A frame at the front of the buffer has eight bytes at least, and they are all there.
pub complete_bounds :
    (buf : Bytes) (n : ℕ) → next_frame buf ≡ complete n → (8 ≤ n) × (n ≤ length buf)
unfolding next_frame
complete_bounds buf n h = ground arith

-- More bytes behind it do not change the frame at the front.
pub next_frame-append :
    (buf more : Bytes) (n : ℕ) → next_frame buf ≡ complete n → next_frame (buf ++ more) ≡ complete n
unfolding next_frame
next_frame-append buf more n h = ground (
  arith,
  length-append buf more,
  get_or-append 0 buf more 0,
  get_or-append 29 buf more 0,
  get_or-append 9 buf more 0,
  get_or-append 10 buf more 0,
)

pub next_frame_short : (buf : Bytes) → length buf < 8 → next_frame buf ≡ incomplete
unfolding next_frame
next_frame_short buf h = rw (lt→ltb (length buf) 8 h)

-- The buffer behind a frame is shorter.
pub length-take_frame :
    (n : ℕ) (s : Engine) (t : Target)
    → next_frame s.buf ≡ complete n
    → length (take_frame n s t).buf < length s.buf
unfolding take_frame
length-take_frame n s t h = omega (arith, complete_bounds s.buf n h, length-drop n s.buf)

-- Two loops that agree on shorter buffers make the same of this one.
module _ (again other : Engine → Fed) (s : Engine)
    (agree : (u : Engine) → length u.buf < length s.buf → again u ≡ other u) where
  go_on_agree :
      (b : Bool) (u : Engine) → length u.buf < length s.buf → go_on again b u ≡ go_on other b u
  unfolding go_on
  go_on_agree true u h = refl
  go_on_agree false u h = agree u h

  after_dispatch_agree :
      (n : ℕ) (o : Outcome)
      → next_frame s.buf ≡ complete n
      → after_dispatch again n s o ≡ after_dispatch other n s o
  unfolding after_dispatch
  after_dispatch_agree n (raised e t) h = refl
  after_dispatch_agree n (done t) h =
      go_on_agree t.stopped (take_frame n s t) (length-take_frame n s t h)

  run_frame_agree :
      (n : ℕ) (b : Bool)
      → next_frame s.buf ≡ complete n
      → run_frame again n b s ≡ run_frame other n b s
  unfolding run_frame
  run_frame_agree n false h = refl
  run_frame_agree n true h = after_dispatch_agree n (dispatch (take n s.buf) s.target) h

  feed_round_agree :
      (frame : Frame)
      → next_frame s.buf ≡ frame
      → feed_round again frame s ≡ feed_round other frame s
  unfolding feed_round
  feed_round_agree incomplete h = refl
  feed_round_agree bad h = refl
  feed_round_agree (complete n) h = run_frame_agree n (get_le32 s.buf 4 == s.in_seq) h

feed_loop_short : (fuel : ℕ) (s : Engine) → length s.buf < 8 → feed_loop fuel s ≡ fed s
unfolding feed_loop
feed_loop_short zero s h = refl
feed_loop_short (suc fuel) s h = rw (next_frame_short s.buf h) (unfold feed_round in refl)

-- Fuel beyond the length of the buffer makes no difference.
pub feed_loop_fuel :
    (f g : ℕ) (s : Engine) → length s.buf ≤ f → length s.buf ≤ g → feed_loop f s ≡ feed_loop g s
unfolding feed_loop
feed_loop_fuel zero g s h k =
    feed_loop_short zero s (omega arith) ∙ sym (feed_loop_short g s (omega arith))
feed_loop_fuel (suc f) zero s h k =
    feed_loop_short (suc f) s (omega arith) ∙ sym (feed_loop_short zero s (omega arith))
feed_loop_fuel (suc f) (suc g) s h k =
    feed_round_agree (feed_loop f) (feed_loop g) s
      (λ u short. feed_loop_fuel f g u (omega arith) (omega arith)) (next_frame s.buf) refl

-- How the loop may end: by an error, by a message that stops the session, or with no whole frame
-- left in the buffer.
abbrev pub Ended : Fed → Type 0
Ended (failed e s) = Unit
Ended (fed s) = (s.target.stopped ≡ true) ⊎ (next_frame s.buf ≡ incomplete)

module _ (again : Engine → Fed) (s : Engine)
    (ends : (u : Engine) → length u.buf < length s.buf → Ended (again u)) where
  go_on_ends :
      (b : Bool) (u : Engine)
      → u.target.stopped ≡ b
      → length u.buf < length s.buf
      → Ended (go_on again b u)
  unfolding go_on
  go_on_ends true u e h = inl e
  go_on_ends false u e h = ends u h

  after_dispatch_ends :
      (n : ℕ) (o : Outcome) → next_frame s.buf ≡ complete n → Ended (after_dispatch again n s o)
  unfolding after_dispatch
  after_dispatch_ends n (raised e t) h = tt
  after_dispatch_ends n (done t) h =
      go_on_ends t.stopped (take_frame n s t) (unfold take_frame in refl)
        (length-take_frame n s t h)

  run_frame_ends :
      (n : ℕ) (b : Bool) → next_frame s.buf ≡ complete n → Ended (run_frame again n b s)
  unfolding run_frame tear_down
  run_frame_ends n false h = tt
  run_frame_ends n true h = after_dispatch_ends n (dispatch (take n s.buf) s.target) h

  feed_round_ends : (frame : Frame) → next_frame s.buf ≡ frame → Ended (feed_round again frame s)
  unfolding feed_round tear_down
  feed_round_ends incomplete h = inr h
  feed_round_ends bad h = tt
  feed_round_ends (complete n) h = run_frame_ends n (get_le32 s.buf 4 == s.in_seq) h

-- With fuel of at least the length of the buffer, the loop comes to an end of its own: by an error, by
-- a message that stops the session, or with no whole frame left in the buffer.
pub feed_loop_ends : (fuel : ℕ) (s : Engine) → length s.buf ≤ fuel → Ended (feed_loop fuel s)
unfolding feed_loop
feed_loop_ends zero s h = inr (next_frame_short s.buf (omega arith))
feed_loop_ends (suc fuel) s h =
    feed_round_ends (feed_loop fuel) s (λ u short. feed_loop_ends fuel u (omega arith))
      (next_frame s.buf) refl
