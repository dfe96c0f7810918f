-- ===== src/Ider/Framing/Invariants.antt =====
-- The invariants of the target hold after any bytes from the host.
use ansible_collection_intel.Prelude.{
  subst, ℕ, ◌≡◌, refl, ◌⊎◌, inr, Bool, true, false, ◌++◌, Bytes, List, [], ◌∷◌, length, take,
}
use ansible_collection_intel.Errors.{Error, protocol, struct_error}
use ansible_collection_intel.Ider.Target.{Target, Outcome, done, raised, state_of}
use ansible_collection_intel.Ider.Dispatch.{dispatch}
use ansible_collection_intel.Ider.Feed.{
  Engine, Fed, fed, failed, engine_of, take_frame, tear_down, feed_loop, feed_unless, feed,
  feed_all, and_then, buffered,
}
use ansible_collection_intel.Ider.Read.Total.{IsIdle}
use ansible_collection_intel.Ider.Moves.{set_stopped, Moves, here, next, Moves-trans}
use ansible_collection_intel.Ider.Safety.{IsSafe, Moves-IsSafe}
use ansible_collection_intel.Ider.Safety.Requests.{Behaves, Moves-of_Behaves}
use ansible_collection_intel.Ider.Safety.Dispatch.{Behaves-dispatch}
use ansible_collection_intel.Ider.Framing.{feed_loop_rule}
use ansible_collection_intel.Ider.Framing.Idle.{IsIdle-dispatch}

-- A target between two messages.
pub record IsReady (t : Target) : Type 0 where
  pub safe : IsSafe t
  pub idle : IsIdle t

-- What a call of `feed` leaves, and what it may raise.
pub record IsReadyAfter (r : Fed) : Type 0 where
  pub ready : IsReady (engine_of r).target
  pub errors :
      (e : Error) (s : Engine)
      → r ≡ failed e s
      → (e ≡ struct_error) ⊎ ((e ≡ protocol) × (s.target.stopped ≡ true))

IsReady-dispatch :
    (message : Bytes) (t : Target) (o : Outcome)
    → dispatch message t ≡ o
    → IsReady t
    → IsReady (state_of o)
IsReady-dispatch message t o e h = record {
  safe =
      Moves-IsSafe
        (Moves-of_Behaves true t o (subst (Behaves true t) e (Behaves-dispatch message t h.safe)))
        h.safe;
  idle = subst (λ x. IsIdle (state_of x)) e (IsIdle-dispatch message t h.safe h.idle);
}

failed-injective : (e f : Error) (s u : Engine) → failed e s ≡ failed f u → (e ≡ f) × (s ≡ u)
failed-injective e f s u h = (cc h, cc h)

IsReadyAfter-fed : (s : Engine) → IsReady s.target → IsReadyAfter (fed s)
IsReadyAfter-fed s h = record { ready = h; errors = λ e u x. cc x }

IsReadyAfter-failed :
    (e : Error) (s : Engine)
    → IsReady s.target
    → (e ≡ struct_error) ⊎ ((e ≡ protocol) × (s.target.stopped ≡ true))
    → IsReadyAfter (failed e s)
IsReadyAfter-failed e s h d = record {
  ready = h;
  errors = λ f u x.
      let (p, q) = failed-injective e f s u x in
      subst (λ g. (g ≡ struct_error) ⊎ ((g ≡ protocol) × (u.target.stopped ≡ true))) p
        (subst (λ v. (e ≡ struct_error) ⊎ ((e ≡ protocol) × (v.target.stopped ≡ true))) q d);
}

IsReady-stopped : (t : Target) → IsReady t → IsReady (record t { stopped = true })
IsReady-stopped t h = record {
  safe = record {
    valid = h.safe.valid;
    in_floppy = h.safe.in_floppy;
    in_cdrom = h.safe.in_cdrom;
    pending = h.safe.pending;
  };
  idle = h.idle;
}

IsReadyAfter-tear_down : (s : Engine) → IsReady s.target → IsReadyAfter (tear_down s)
unfolding tear_down
IsReadyAfter-tear_down s h =
    IsReadyAfter-failed protocol _ (IsReady-stopped s.target h) (inr (refl, refl))

-- The state at a message, and how it was reached from `t₀`.
module _ (t₀ : Target) where
  abbrev Reached : Target → Type 0
  Reached t = Moves true t₀ t × IsReady t

  abbrev ReachedAfter : Fed → Type 0
  ReachedAfter r = Moves true t₀ (engine_of r).target × IsReadyAfter r

  Reached-fed : (s : Engine) → Reached s.target → ReachedAfter (fed s)
  Reached-fed s h = (h.0, IsReadyAfter-fed s h.1)

  Reached-torn : (s : Engine) → Reached s.target → ReachedAfter (tear_down s)
  unfolding tear_down
  Reached-torn s h = (
    next h.0 set_stopped,
    IsReadyAfter-failed protocol _ (IsReady-stopped s.target h.1) (inr (refl, refl)),
  )

  Reached-threw :
      (s : Engine) (n : ℕ) (e : Error) (t : Target)
      → Reached s.target
      → dispatch (take n s.buf) s.target ≡ raised e t
      → ReachedAfter (failed e (take_frame n s t))
  unfolding take_frame
  Reached-threw s n e t h x =
      let b = subst (Behaves true s.target) x (Behaves-dispatch (take n s.buf) s.target h.1.safe) in
      (
        Moves-trans h.0 b.0,
        IsReadyAfter-failed e _ (IsReady-dispatch (take n s.buf) s.target (raised e t) x h.1) b.1,
      )

  Reached-step :
      (s : Engine) (n : ℕ) (t : Target)
      → Reached s.target
      → dispatch (take n s.buf) s.target ≡ done t
      → Reached (take_frame n s t).target
  unfolding take_frame
  Reached-step s n t h x = (
    Moves-trans h.0
        (subst (Behaves true s.target) x (Behaves-dispatch (take n s.buf) s.target h.1.safe)),
    IsReady-dispatch (take n s.buf) s.target (done t) x h.1,
  )

  Reached-loop : (fuel : ℕ) (s : Engine) → Reached s.target → ReachedAfter (feed_loop fuel s)
  Reached-loop =
      feed_loop_rule (λ s. Reached s.target) ReachedAfter Reached-fed Reached-torn Reached-threw
        Reached-step

  Reached-unless :
      (b : Bool) (bytes : Bytes) (s : Engine)
      → s.target.stopped ≡ b
      → Reached s.target
      → ReachedAfter (feed_unless b bytes s)
  unfolding feed_unless
  Reached-unless true bytes s e h = (h.0, IsReadyAfter-failed protocol s h.1 (inr (refl, e)))
  Reached-unless false bytes s e h = Reached-loop (length (s.buf ++ bytes)) (buffered bytes s) h

  Reached-feed : (bytes : Bytes) (s : Engine) → Reached s.target → ReachedAfter (feed bytes s)
  unfolding feed
  Reached-feed bytes s h = Reached-unless s.target.stopped bytes s refl h

  Reached-then :
      (r : Fed) (again : Engine → Fed)
      → ((s : Engine) → Reached s.target → ReachedAfter (again s))
      → ReachedAfter r
      → ReachedAfter (and_then r again)
  Reached-then (failed e s) again rest h = h
  Reached-then (fed s) again rest h = rest s (h.0, h.1.ready)

  Reached-all : (xs : List Bytes) (s : Engine) → Reached s.target → ReachedAfter (feed_all xs s)
  unfolding feed_all
  Reached-all [] s h = Reached-fed s h
  Reached-all (x ∷ xs) s h =
      Reached-then (feed x s) (feed_all xs) (Reached-all xs) (Reached-feed x s h)

-- Whatever bytes the host sends, in whatever cuts, from a state that is ready, as long as the `send`
-- callable and the files raise nothing of their own: the state after them is ready too, also after an
-- error that the engine raised; such an error is the `struct.error` of a value that does not fit its
-- field, or a ProtocolError after which the session is stopped.
pub feed_all-IsReady :
    (xs : List Bytes) (s : Engine) → IsReady s.target → IsReadyAfter (feed_all xs s)
feed_all-IsReady xs s h = (Reached-all s.target xs s (here, h)).1

-- From a ready state, what any bytes in any cuts did to the target is a sequence of the mutations of
-- `Move`: frames sent, counters and flags, and writes of what was asked for, inside a writable image.
pub Moves-feed_all :
    (xs : List Bytes) (s : Engine)
    → IsReady s.target
    → Moves true s.target (engine_of (feed_all xs s)).target
Moves-feed_all xs s h = (Reached-all s.target xs s (here, h)).0
