-- ===== src/Redirection/Stream.antt =====
-- redirection.py: the bytes of the peer pass through `_fill` and the reply readers in order.
use ansible_collection_intel.Prelude.{
  ℕ, zero, suc, ◌≡◌, refl, ap, ◌∙◌, Bool, true, false, Option, none, some, [], ◌∷◌, ◌++◌,
  append_assoc, append-nil, Bytes, length, ltb, if◌then◌else◌,
}
use ansible_collection_intel.Errors.{Result, ok}
use ansible_collection_intel.Effect.{◌>>=◌, lift, step_rule}
use ansible_collection_intel.Redirection.Session.{
  Peer, Received, chunk, recv_timeout, recv_failed, Crypto, Session, Io, connected_socket, send_all,
  send, take_chunk, fill_loop, fill,
}
use ansible_collection_intel.Redirection.Connect.{verify_tls_pin, check_pin, open_socket}

abbrev pub bytes_of : Received → Bytes
bytes_of (chunk bytes) = bytes
bytes_of recv_timeout = []
bytes_of recv_failed = []

-- All that the first `n` calls of `recv` have brought.
abbrev pub received_bytes : Peer → ℕ → Bytes
received_bytes peer zero = []
received_bytes peer (suc n) = received_bytes peer n ++ bytes_of (peer.recv n)

-- Behind `front`, the buffer is what was received and not taken: the bytes `held`, and what has come
-- since.
pub record IsFilled (peer : Peer) (front held : Bytes) (s : Session) : Type 0 where
  pub extra : Bytes
  pub buffered : s.buf ≡ held ++ extra
  pub stream : received_bytes peer s.received ≡ front ++ s.buf

-- A step of the code that keeps `P`, whether it returns or raises.
pub record Keeps (P : Session → Type 0) {A : Type 0} (m : Io A) : Type 0 where
  pub keep : (s : Session) → P s → P (m s).1

module _ (P : Session → Type 0) where
  Keeps-bind :
      {A B : Type 0} (m : Io A) (f : A → Io B)
      → Keeps P m
      → ((a : A) → Keeps P (f a))
      → Keeps P (m >>= f)
  Keeps-bind m f h k = record {
    keep = λ s p.
        step_rule (λ r. P r.1) m s f (λ e q. h.keep s p) (λ a q. (k a).keep (m s).1 (h.keep s p));
  }

  Keeps-lift : {A : Type 0} (r : Result A) → Keeps P (lift r)
  Keeps-lift r = record { keep = λ s p. p }

module _ (peer : Peer) (front held : Bytes) where
  abbrev pub Filled : Session → Type 0
  Filled = IsFilled peer front held

  -- a call of `recv` that brought no byte
  nothing_came :
      (s : Session) (r : Received)
      → peer.recv s.received ≡ r
      → bytes_of r ≡ []
      → Filled s
      → Filled (record s { received = suc s.received })
  nothing_came s r e none_came p = record {
    extra = p.extra;
    buffered = p.buffered;
    stream =
        ap (λ x. received_bytes peer s.received ++ bytes_of x) e
        ∙ ap (λ bs. received_bytes peer s.received ++ bs) none_came
        ∙ append-nil _
        ∙ p.stream;
  }

  Filled-take_chunk :
      (again : Io (Unit {0})) (s : Session)
      → Keeps Filled again
      → Filled s
      → (r : Received) → peer.recv s.received ≡ r
      → Filled (take_chunk again r s).1
  unfolding take_chunk
  Filled-take_chunk again s h p recv_timeout e = nothing_came s recv_timeout e refl p
  Filled-take_chunk again s h p recv_failed e = nothing_came s recv_failed e refl p
  Filled-take_chunk again s h p (chunk []) e = nothing_came s (chunk []) e refl p
  Filled-take_chunk again s h p (chunk (b ∷ bs)) e = h.keep _ (record {
    extra = p.extra ++ b ∷ bs;
    buffered = ap (λ x. x ++ b ∷ bs) p.buffered ∙ append_assoc held p.extra (b ∷ bs);
    stream =
        ap (λ r. received_bytes peer s.received ++ bytes_of r) e
        ∙ ap (λ x. x ++ b ∷ bs) p.stream
        ∙ append_assoc front s.buf (b ∷ bs);
  })

  Filled-if :
      (b : Bool) (p q : Result (Unit {0}) × Session)
      → Filled p.1
      → Filled q.1
      → Filled (if b then p else q).1
  Filled-if true p q h k = h
  Filled-if false p q h k = k

  Filled-fill_loop : (fuel min_bytes : ℕ) → Keeps Filled (fill_loop fuel peer min_bytes)
  unfolding fill_loop
  Filled-fill_loop zero min_bytes = record { keep = λ s p. p }
  Filled-fill_loop (suc fuel) min_bytes =
      let rest = Filled-fill_loop fuel min_bytes in
      record {
        keep = λ s p.
            Filled-if (ltb (length s.buf) min_bytes) _ (ok tt, s)
              (Filled-take_chunk (fill_loop fuel peer min_bytes) s rest p (peer.recv s.received)
                refl)
              p;
      }

  Filled-connected_socket : Keeps Filled connected_socket
  unfolding connected_socket
  Filled-connected_socket = record { keep = λ s p. p }

  Filled-send_all : (bytes : Bytes) → Keeps Filled (send_all peer bytes)
  unfolding send_all
  Filled-send_all bytes = record {
    keep = λ s p. record { extra = p.extra; buffered = p.buffered; stream = p.stream };
  }

  pub Filled-fill : (min_bytes : ℕ) → Keeps Filled (fill peer min_bytes)
  unfolding fill
  Filled-fill min_bytes =
      Keeps-bind Filled connected_socket _ Filled-connected_socket
        (λ u. Filled-fill_loop min_bytes min_bytes)

  pub Filled-send : (bytes : Bytes) → Keeps Filled (send peer bytes)
  unfolding send
  Filled-send bytes =
      Keeps-bind Filled connected_socket _ Filled-connected_socket (λ u. Filled-send_all bytes)

  pub Filled-open_socket : Keeps Filled (open_socket peer)
  unfolding open_socket
  Filled-open_socket = record {
    keep = λ s p. record { extra = p.extra; buffered = p.buffered; stream = p.stream };
  }

  pub Filled-verify_tls_pin :
      (crypto : Crypto) (use_tls : Bool) (pin : Option Bytes)
      → Keeps Filled (verify_tls_pin peer crypto use_tls pin)
  unfolding verify_tls_pin
  Filled-verify_tls_pin crypto false pin = Keeps-lift Filled (ok tt)
  Filled-verify_tls_pin crypto true none = Keeps-lift Filled (ok tt)
  Filled-verify_tls_pin crypto true (some []) = Keeps-lift Filled (ok tt)
  Filled-verify_tls_pin crypto true (some (c ∷ pin)) =
      Keeps-bind Filled connected_socket _ Filled-connected_socket
        (λ u. Keeps-lift Filled (check_pin crypto (c ∷ pin) peer.certificate))
