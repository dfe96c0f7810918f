-- ===== src/Ider/Framing/Chunks.antt =====
-- `feed` does not depend on how the bytes were cut into calls.
use ansible_collection_intel.Prelude.{
  ℕ, zero, suc, ◌≤◌, ◌<◌, ◌≡◌, refl, sym, ap, ◌∙◌, Bool, true, false, false≢true, ◌++◌,
  append_assoc, append-nil, concat, List, [], ◌∷◌, Bytes, length, take, drop, get_le32, ◌==◌,
  length-append, length-drop, get_or-append, take-append_le, drop-append_le, arith,
}
use native.Mathlib.Nat.{add_assoc}
use ansible_collection_intel.Ider.Target.{Target, Outcome, done, raised}
use ansible_collection_intel.Ider.Dispatch.{dispatch}
use ansible_collection_intel.Ider.Feed.{
  Engine, Fed, fed, failed, Frame, incomplete, bad, complete, next_frame, take_frame, tear_down,
  go_on, after_dispatch, run_frame, feed_round, feed_loop, feed_unless, feed, feed_all, and_then,
  buffered,
}
use ansible_collection_intel.Ider.Framing.Total.{
  complete_bounds, next_frame-append, feed_loop_fuel, length-take_frame,
}

module _ (more : Bytes) where
  -- The loop on a buffer with more bytes behind it, with the fuel that is enough.
  abbrev onward : Engine → Fed
  onward s = feed_loop (length (s.buf ++ more)) (buffered more s)

  -- Taking a frame does not touch the bytes behind it.
  buffered-take_frame :
      (n : ℕ) (s : Engine) (t : Target)
      → n ≤ length s.buf
      → take_frame n (buffered more s) t ≡ buffered more (take_frame n s t)
  unfolding take_frame
  buffered-take_frame n s t h = rw (drop-append_le n s.buf more h)

  le32-buffered :
      (s : Engine) (n : ℕ)
      → next_frame s.buf ≡ complete n
      → get_le32 (s.buf ++ more) 4 ≡ get_le32 s.buf 4
  le32-buffered s n h = ground (
    arith,
    complete_bounds s.buf n h,
    get_or-append 4 s.buf more 0,
    get_or-append 5 s.buf more 0,
    get_or-append 6 s.buf more 0,
    get_or-append 7 s.buf more 0,
  )

  -- A frame that was dispatched and did not stop the session is dispatched all the same.
  onward_step :
      (s : Engine) (n : ℕ) (t : Target)
      → next_frame s.buf ≡ complete n
      → (get_le32 s.buf 4 == s.in_seq) ≡ true
      → dispatch (take n s.buf) s.target ≡ done t
      → t.stopped ≡ false
      → onward s ≡ onward (take_frame n s t)
  onward_step s n t h e d running =
      let bounds = complete_bounds s.buf n h in
      let fuel : ℕ = length (s.buf ++ more) in
      feed_loop_fuel fuel (suc fuel) (buffered more s) (omega arith) (omega arith)
      ∙ one_round fuel
      ∙ ap (feed_loop fuel) (buffered-take_frame n s t bounds.1)
      ∙ feed_loop_fuel fuel _ (buffered more (take_frame n s t)) (shorter fuel refl) (omega arith)
    where
      one_round :
          (fuel : ℕ)
          → feed_loop (suc fuel) (buffered more s)
            ≡ feed_loop fuel (take_frame n (buffered more s) t)
      one_round fuel =
          unfold feed_loop feed_round run_frame after_dispatch go_on in
          simp (
            next_frame-append s.buf more n h,
            le32-buffered s n h,
            e,
            take-append_le n s.buf more (complete_bounds s.buf n h).1,
            d,
            running,
          )

      shorter :
          (fuel : ℕ)
          → fuel ≡ length (s.buf ++ more)
          → length ((take_frame n s t).buf ++ more) ≤ fuel
      shorter fuel q =
          unfold take_frame in
          omega (
            arith,
            q,
            length-append s.buf more,
            length-append (drop n s.buf) more,
            length-drop n s.buf,
          )

  -- What a loop that returns without stopping leaves can go on with more bytes.
  module _ (again : Engine → Fed) (s s₁ : Engine) (running : s₁.target.stopped ≡ false)
      (ih : (u : Engine)
        → length u.buf < length s.buf
        → again u ≡ fed s₁
        → onward u ≡ onward s₁) where
    fed-injective : (u : Engine) → fed u ≡ fed s₁ → u ≡ s₁
    fed-injective u e = cc e

    go_on-onward :
        (n : ℕ) (t : Target) (b : Bool)
        → next_frame s.buf ≡ complete n
        → (get_le32 s.buf 4 == s.in_seq) ≡ true
        → dispatch (take n s.buf) s.target ≡ done t
        → t.stopped ≡ b
        → go_on again b (take_frame n s t) ≡ fed s₁
        → onward s ≡ onward s₁
    unfolding go_on
    go_on-onward n t true h e d st r = absurd (
        false≢true (
          sym running
          ∙ ap (λ u. u.target.stopped) (sym (fed-injective _ r))
          ∙ unfold take_frame in st))
    go_on-onward n t false h e d st r =
        onward_step s n t h e d st ∙ ih (take_frame n s t) (length-take_frame n s t h) r

    after_dispatch-onward :
        (n : ℕ) (o : Outcome)
        → next_frame s.buf ≡ complete n
        → (get_le32 s.buf 4 == s.in_seq) ≡ true
        → dispatch (take n s.buf) s.target ≡ o
        → after_dispatch again n s o ≡ fed s₁
        → onward s ≡ onward s₁
    unfolding after_dispatch
    after_dispatch-onward n (raised x t) h e d r = cc
    after_dispatch-onward n (done t) h e d r = go_on-onward n t t.stopped h e d refl r

    run_frame-onward :
        (n : ℕ) (b : Bool)
        → next_frame s.buf ≡ complete n
        → (get_le32 s.buf 4 == s.in_seq) ≡ b
        → run_frame again n b s ≡ fed s₁
        → onward s ≡ onward s₁
    unfolding run_frame tear_down
    run_frame-onward n false h e r = cc
    run_frame-onward n true h e r =
        after_dispatch-onward n (dispatch (take n s.buf) s.target) h e refl r

    feed_round-onward :
        (frame : Frame)
        → next_frame s.buf ≡ frame
        → feed_round again frame s ≡ fed s₁
        → onward s ≡ onward s₁
    unfolding feed_round tear_down
    feed_round-onward incomplete h r = ap onward (fed-injective s r)
    feed_round-onward bad h r = cc
    feed_round-onward (complete n) h r = run_frame-onward n (get_le32 s.buf 4 == s.in_seq) h refl r

  feed_loop-onward :
      (fuel : ℕ) (s s₁ : Engine)
      → length s.buf ≤ fuel
      → s₁.target.stopped ≡ false
      → feed_loop fuel s ≡ fed s₁
      → onward s ≡ onward s₁
  unfolding feed_loop
  feed_loop-onward zero s s₁ h running r = let e : s ≡ s₁ = cc r in ap onward e
  feed_loop-onward (suc fuel) s s₁ h running r =
      feed_round-onward (feed_loop fuel) s s₁ running
        (λ u short q. feed_loop-onward fuel u s₁ (omega arith) running q) (next_frame s.buf) refl r

  feed_unless_append :
      (b : Bool) (bytes : Bytes) (s s₁ : Engine)
      → feed_unless b bytes s ≡ fed s₁
      → s₁.target.stopped ≡ false
      → feed_unless b (bytes ++ more) s ≡ onward s₁
  unfolding feed_unless
  feed_unless_append true bytes s s₁ r running = cc
  feed_unless_append false bytes s s₁ r running =
      whole
      ∙ feed_loop-onward (length (s.buf ++ bytes)) (buffered bytes s) s₁ (omega arith) running r
    where
      whole :
          feed_loop (length (s.buf ++ (bytes ++ more))) (buffered (bytes ++ more) s)
          ≡ onward (buffered bytes s)
      whole = rw (append_assoc, length-append bytes more, add_assoc)

-- Two calls of `feed` do what one call with all the bytes does, provided that the first has neither
-- raised nor closed the session: the cuts that TCP makes in the stream are of no consequence.
pub feed-append :
    (bytes more : Bytes) (s s₁ : Engine)
    → feed bytes s ≡ fed s₁
    → s₁.target.stopped ≡ false
    → feed (bytes ++ more) s ≡ feed more s₁
unfolding feed feed_unless
feed-append bytes more s s₁ r running =
    feed_unless_append more s.target.stopped bytes s s₁ r running
    ∙ sym (by_stopped s₁.target.stopped running)
  where
    by_stopped : (b : Bool) → b ≡ false → feed_unless b more s₁ ≡ onward more s₁
    by_stopped true e = cc
    by_stopped false e = refl

-- A session that is stopped refuses every call.
running_of_fed :
    (x : Bytes) (xs : List Bytes) (s s₁ : Engine)
    → feed_all (x ∷ xs) s ≡ fed s₁
    → s.target.stopped ≡ false
unfolding feed_all feed feed_unless
running_of_fed x xs s s₁ r = by_stopped s.target.stopped r
  where
    by_stopped : (b : Bool) → and_then (feed_unless b x s) (feed_all xs) ≡ fed s₁ → b ≡ false
    by_stopped true e = cc
    by_stopped false e = refl

module _ (x : Bytes) (s s₁ : Engine) where
  concat_one : (o : Fed) → feed x s ≡ o → and_then o fed ≡ fed s₁ → feed (x ++ []) s ≡ fed s₁
  concat_one (failed e u) h q = cc
  concat_one (fed u) h q = rw append-nil (h ∙ q)

  concat_more :
      (y : Bytes) (ys : List Bytes) (o : Fed)
      → ((u : Engine) → feed_all (y ∷ ys) u ≡ fed s₁ → feed (concat (y ∷ ys)) u ≡ fed s₁)
      → feed x s ≡ o
      → and_then o (feed_all (y ∷ ys)) ≡ fed s₁
      → feed (x ++ concat (y ∷ ys)) s ≡ fed s₁
  concat_more y ys (failed e u) rest h q = cc
  concat_more y ys (fed u) rest h q =
      feed-append x (concat (y ∷ ys)) s u h (running_of_fed y ys u s₁ q) ∙ rest u q

-- Any cuts of the stream: where the calls of `feed` on the pieces all return, one call with all the
-- bytes returns the same engine.
pub feed-concat :
    (xs : List Bytes) (x : Bytes) (s s₁ : Engine)
    → feed_all (x ∷ xs) s ≡ fed s₁
    → feed (concat (x ∷ xs)) s ≡ fed s₁
unfolding feed_all
feed-concat [] x s s₁ r = concat_one x s s₁ (feed x s) refl r
feed-concat (y ∷ ys) x s s₁ r =
    concat_more x s s₁ y ys (feed x s) (λ u q. feed-concat ys y u s₁ q) refl r
