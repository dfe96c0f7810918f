-- ===== src/Redirection/Fill.antt =====
-- redirection.py `_fill`: its loop reads until the bytes asked for are there, or raises.
use ansible_collection_intel.Prelude.{
  ℕ, zero, suc, ◌+◌, ◌≤◌, ◌≡◌, refl, Bool, true, false, [], ◌∷◌, length, length-append, ltb,
  if◌then◌else◌, arith,
}
use ansible_collection_intel.Errors.{Error, Result, ok, err}
use ansible_collection_intel.Effect.{step_rule}
use ansible_collection_intel.Redirection.Session.{
  Peer, Received, chunk, recv_timeout, recv_failed, Session, connected_socket, take_chunk,
  fill_loop, fill,
}

-- The loop, with the fuel that `_fill` gives it, comes to its own end: when it returns, the bytes
-- asked for are there.
fill_loop_ends :
    (fuel : ℕ) (peer : Peer) (min_bytes : ℕ) (s : Session)
    → min_bytes ≤ length s.buf + fuel
    → (fill_loop fuel peer min_bytes s).0 ≡ ok tt
    → min_bytes ≤ length (fill_loop fuel peer min_bytes s).1.buf
unfolding fill_loop take_chunk
fill_loop_ends zero peer min_bytes s h e = omega (arith, h)
fill_loop_ends (suc fuel) peer min_bytes s h e =
    by_test (ltb (length s.buf) min_bytes) (λ k. ground (arith, k))
      (by_recv (peer.recv s.received)
        (λ u k. fill_loop_ends fuel peer min_bytes u (omega (arith, h, k))))
      e
  where
    Ends : Result (Unit {0}) × Session → Type 0
    Ends p = p.0 ≡ ok tt → min_bytes ≤ length p.1.buf

    by_recv :
        (r : Received)
        → ((u : Session)
            → suc (length s.buf) ≤ length u.buf
            → Ends (fill_loop fuel peer min_bytes u))
        → Ends (take_chunk (fill_loop fuel peer min_bytes) r s)
    by_recv recv_timeout rest = λ q. cc
    by_recv recv_failed rest = λ q. cc
    by_recv (chunk []) rest = λ q. cc
    by_recv (chunk (b ∷ bs)) rest = rest _ (omega (arith, length-append s.buf (b ∷ bs)))

    by_test :
        (b : Bool)
        → (b ≡ false → min_bytes ≤ length s.buf)
        → Ends (take_chunk (fill_loop fuel peer min_bytes) (peer.recv s.received) s)
        → Ends (
            if b
            then take_chunk (fill_loop fuel peer min_bytes) (peer.recv s.received) s
            else (ok tt, s))
    by_test true k more = more
    by_test false k more = λ q. k refl

raised_not_ok {ℓ} : {A : Type ℓ} {e : Error} {a : A} → err e ≡ ok a → ⊥
raised_not_ok h = cc

-- When `_fill` returns, for any peer and any state, the buffer holds the bytes asked for.
pub length-fill :
    (peer : Peer) (min_bytes : ℕ) (s : Session)
    → (fill peer min_bytes s).0 ≡ ok tt
    → min_bytes ≤ length (fill peer min_bytes s).1.buf
unfolding fill connected_socket
length-fill peer min_bytes s =
    step_rule (λ p. p.0 ≡ ok tt → min_bytes ≤ length p.1.buf) connected_socket s _
      (λ e q h. absurd (raised_not_ok h))
      (λ u q. fill_loop_ends min_bytes peer min_bytes s (omega arith))
