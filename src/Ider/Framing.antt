-- ===== src/Ider/Framing.antt =====
-- Theorems about `feed`: its loop ends, keeps the invariants, and does not depend on how the
-- bytes were cut into calls. The rule below is the induction that they share.
pub mod Idle
pub mod Invariants
pub mod ReadOnly
pub mod Total
pub mod Numbered
pub mod Chunks
pub mod Setup
mod Tests
use ansible_collection_intel.Prelude.{
  ℕ, zero, suc, ◌≡◌, refl, Bool, true, false, take, get_le32, ◌==◌,
}
use ansible_collection_intel.Errors.{Error}
use ansible_collection_intel.Ider.Target.{Target, Outcome, done, raised}
use ansible_collection_intel.Ider.Dispatch.{dispatch}
use ansible_collection_intel.Ider.Feed.{
  Engine, Fed, fed, failed, Frame, incomplete, bad, complete, next_frame, take_frame, tear_down,
  go_on, after_dispatch, run_frame, feed_round, feed_loop,
}

-- From `P` before every round follows `Q` of what the loop returns or raises.
module _ (P : Engine → Type 0) (Q : Fed → Type 0) (stop : (s : Engine) → P s → Q (fed s))
    (torn : (s : Engine) → P s → Q (tear_down s))
    (threw : (s : Engine) (n : ℕ) (e : Error) (t : Target)
      → P s
      → dispatch (take n s.buf) s.target ≡ raised e t
      → Q (failed e (take_frame n s t)))
    (step : (s : Engine) (n : ℕ) (t : Target)
      → P s
      → dispatch (take n s.buf) s.target ≡ done t
      → P (take_frame n s t)) where
  go_on_rule :
      (again : Engine → Fed)
      → ((s : Engine) → P s → Q (again s))
      → (b : Bool) (s : Engine) → P s
      → Q (go_on again b s)
  unfolding go_on
  go_on_rule again rest true s p = stop s p
  go_on_rule again rest false s p = rest s p

  after_dispatch_rule :
      (again : Engine → Fed)
      → ((s : Engine) → P s → Q (again s))
      → (n : ℕ) (s : Engine) (o : Outcome) → dispatch (take n s.buf) s.target ≡ o
      → P s
      → Q (after_dispatch again n s o)
  unfolding after_dispatch
  after_dispatch_rule again rest n s (raised e t) h p = threw s n e t p h
  after_dispatch_rule again rest n s (done t) h p =
      go_on_rule again rest t.stopped (take_frame n s t) (step s n t p h)

  feed_round_rule :
      (again : Engine → Fed)
      → ((s : Engine) → P s → Q (again s))
      → (frame : Frame) (s : Engine) → P s
      → Q (feed_round again frame s)
  unfolding feed_round
  feed_round_rule again rest incomplete s p = stop s p
  feed_round_rule again rest bad s p = torn s p
  feed_round_rule again rest (complete n) s p = in_order (get_le32 s.buf 4 == s.in_seq)
    where
      in_order : (b : Bool) → Q (run_frame again n b s)
      in_order false = torn s p
      in_order true = after_dispatch_rule again rest n s (dispatch (take n s.buf) s.target) refl p

  pub feed_loop_rule : (fuel : ℕ) (s : Engine) → P s → Q (feed_loop fuel s)
  unfolding feed_loop
  feed_loop_rule zero s p = stop s p
  feed_loop_rule (suc fuel) s p =
      feed_round_rule (feed_loop fuel) (feed_loop_rule fuel) (next_frame s.buf) s p
