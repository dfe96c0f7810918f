-- ===== src/Redirection/Messages.antt =====
-- redirection.py: what `connect` takes from the peer is the replies of the handshake, whole and in order.
use ansible_collection_intel.Prelude.{
  ℕ, zero, suc, ◌+◌, ◌≤◌, ◌<◌, ◌≡◌, refl, sym, ap, ◌∙◌, subst, Bool, true, false, not, List, [],
  ◌∷◌, ◌++◌, append_assoc, append-nil, Bytes, All, concat, length, length-take, length-append, drop,
  take, take-append-drop, at, get_le32, ◌==◌, ==_iff, arith,
}
use ansible_collection_intel.Errors.{Error, Result, ok, refuse, protocol, raised_not_ok}
use ansible_collection_intel.Effect.{◌>>=◌, lift, step_rule}
use ansible_collection_intel.Redirection.Session.{
  Peer, Session, Io, send, fill, peek, discard, auth_reply, read_start_session_reply, AuthReply,
  read_auth_reply,
}
use ansible_collection_intel.Redirection.Fill.{length-fill}
use ansible_collection_intel.Redirection.Stream.{received_bytes, IsFilled, Filled-fill, Filled-send}

-- A whole StartRedirectionSessionReply: its header of 13 bytes and the data that byte 12 announces.
pub record IsStartReply (message : Bytes) : Type 0 where
  pub command : at message 0 ≡ 0x11
  pub status : at message 1 ≡ 0
  pub sized : length message ≡ 13 + at message 12

-- A whole AuthenticateSessionReply: its header of 9 bytes and the data that its length announces.
pub record IsAuthReply (message : Bytes) : Type 0 where
  pub command : at message 0 ≡ 0x14
  pub sized : length message ≡ 9 + get_le32 message 5

at-append : (xs ys : Bytes) (i : ℕ) → i < length xs → at (xs ++ ys) i ≡ at xs i
at-append [] ys i h = absurd (omega arith)
at-append (x ∷ xs) ys zero h = refl
at-append (x ∷ xs) ys (suc i) h = at-append xs ys i (omega arith)

at-take : (n : ℕ) (xs : Bytes) (i : ℕ) → i < n → at (take n xs) i ≡ at xs i
at-take zero xs i h = absurd (omega arith)
at-take (suc n) [] i h = refl
at-take (suc n) (x ∷ xs) zero h = refl
at-take (suc n) (x ∷ xs) (suc i) h = at-take n xs i (omega arith)

checked : (b : Bool) (e : Error) (u : Unit) → refuse (not b) e ≡ ok u → b ≡ true
checked true e u h = refl
checked false e u h = absurd (raised_not_ok h)

concat-append : (xs ys : List Bytes) → concat (xs ++ ys) ≡ concat xs ++ concat ys
concat-append [] ys = refl
concat-append (x ∷ xs) ys =
    ap (λ z. x ++ z) (concat-append xs ys) ∙ sym (append_assoc x (concat xs) (concat ys))

All-append : (P : Bytes → Type 0) (xs ys : List Bytes) → All P xs → All P ys → All P (xs ++ ys)
All-append P [] ys h k = k
All-append P (x ∷ xs) ys h k = (h.0, All-append P xs ys h.1 k)

module _ (peer : Peer) where
  -- What was received and is not in the buffer.
  pub record IsBehind (front : Bytes) (s : Session) : Type 0 where
    pub stream : received_bytes peer s.received ≡ front ++ s.buf

  pub filled : (front : Bytes) (s : Session) → IsBehind front s → IsFilled peer front s.buf s
  filled front s h = record { extra = []; buffered = sym (append-nil s.buf); stream = h.stream }

  pub behind : (front held : Bytes) (s : Session) → IsFilled peer front held s → IsBehind front s
  behind front held s h = record { stream = h.stream }

  -- Bytes that are taken from the buffer.
  taken :
      (front : Bytes) (n : ℕ) (s : Session)
      → IsBehind front s
      → IsBehind (front ++ take n s.buf) (record s { buf = drop n s.buf })
  taken front n s h = record {
    stream =
        h.stream
        ∙ ap (λ x. front ++ x) (sym (take-append-drop n s.buf))
        ∙ sym (append_assoc front (take n s.buf) (drop n s.buf));
  }

  -- A byte of the header that was read before the rest came.
  same_header :
      (front held : Bytes) (s : Session) (n i : ℕ)
      → IsFilled peer front held s
      → i < length held
      → i < n
      → at (take n s.buf) i ≡ at held i
  same_header front held s n i f h k =
      at-take n s.buf i k ∙ ap (λ b. at b i) f.buffered ∙ at-append held f.extra i h

  taken_length : (n : ℕ) (s : Session) → n ≤ length s.buf → length (take n s.buf) ≡ n
  taken_length n s h = ground (arith, length-take n s.buf)

  pub record TookStart (front : Bytes) (s : Session) : Type 0 where
    pub message : Bytes
    pub whole : IsStartReply message
    pub rest : IsBehind (front ++ message) s

  pub start-TookStart :
      (front : Bytes) (s : Session)
      → IsBehind front s
      → (read_start_session_reply peer s).0 ≡ ok tt
      → TookStart front (read_start_session_reply peer s).1
  unfolding read_start_session_reply peek discard
  start-TookStart front s b =
      let Q : Result (Unit {0}) × Session → Type 0 = λ r. r.0 ≡ ok tt → TookStart front r.1 in
      let s₁ : Session = (fill peer 13 s).1 in
      let n : ℕ = 13 + at s₁.buf 12 in
      let s₂ : Session = (fill peer n s₁).1 in
      step_rule Q (fill peer 13) s _ (λ e q h. absurd (raised_not_ok h))
        (λ u₁ q₁.
          step_rule Q (lift (refuse (not (at s₁.buf 0 == 0x11)) protocol)) s₁ _
            (λ e q h. absurd (raised_not_ok h))
            (λ u₂ q₂.
              step_rule Q (lift (refuse (not (at s₁.buf 1 == 0)) protocol)) s₁ _
                (λ e q h. absurd (raised_not_ok h))
                (λ u₃ q₃.
                  step_rule Q (fill peer n) s₁ _ (λ e q h. absurd (raised_not_ok h))
                    (λ u₄ q₄ h.
                      let f₁ = (Filled-fill peer front s.buf 13).keep s (filled front s b) in
                      let f₂ =
                        (Filled-fill peer front s₁.buf n).keep s₁
                          (filled front s₁ (behind front s.buf s₁ f₁)) in
                      let long : 13 ≤ length s₁.buf = length-fill peer 13 s q₁ in
                      let same = same_header front s₁.buf s₂ n in
                      record {
                        message = take n s₂.buf;
                        whole = record {
                          command =
                              same 0 f₂ (omega arith) (omega arith)
                              ∙ (==_iff (at s₁.buf 0) 0x11).0 (checked _ protocol u₂ q₂);
                          status =
                              same 1 f₂ (omega arith) (omega arith)
                              ∙ (==_iff (at s₁.buf 1) 0).0 (checked _ protocol u₃ q₃);
                          sized =
                              taken_length n s₂ (length-fill peer n s₁ q₄)
                              ∙ ap (λ k. 13 + k) (sym (same 12 f₂ (omega arith) (omega arith)));
                        };
                        rest = taken front n s₂ (behind front s₁.buf s₂ f₂);
                      }))))

  -- Between `least` and `most` replies were taken, each whole.
  pub record Took (least most : ℕ) (front : Bytes) (s : Session) : Type 0 where
    pub replies : List Bytes
    pub whole : All IsAuthReply replies
    pub at_least : least ≤ length replies
    pub at_most : length replies ≤ most
    pub rest : IsBehind (front ++ concat replies) s

  pub record Reads (least most : ℕ) {A : Type 0} (m : Io A) : Type 0 where
    pub run :
        (front : Bytes) (s : Session) (a : A)
        → IsBehind front s
        → (m s).0 ≡ ok a
        → Took least most front (m s).1

  Took-nothing : (front : Bytes) (s : Session) → IsBehind front s → Took 0 0 front s
  Took-nothing front s h = record {
    replies = [];
    whole = tt;
    at_least = omega arith;
    at_most = omega arith;
    rest = record { stream = h.stream ∙ ap (λ x. x ++ s.buf) (sym (append-nil front)) };
  }

  pub Reads-bind :
      {A B : Type 0} (l₁ m₁ l₂ m₂ : ℕ) (m : Io A) (f : A → Io B)
      → Reads l₁ m₁ m
      → ((a : A) → Reads l₂ m₂ (f a))
      → Reads (l₁ + l₂) (m₁ + m₂) (m >>= f)
  Reads-bind l₁ m₁ l₂ m₂ m f h k = record {
    run = λ front s b behind_it.
        step_rule (λ r. r.0 ≡ ok b → Took (l₁ + l₂) (m₁ + m₂) front r.1) m s f
          (λ e q eq. absurd (raised_not_ok eq))
          (λ a q eq.
            let t₁ = h.run front s a behind_it q in
            let t₂ = (k a).run (front ++ concat t₁.replies) (m s).1 b t₁.rest eq in
            record {
              replies = t₁.replies ++ t₂.replies;
              whole = All-append IsAuthReply t₁.replies t₂.replies t₁.whole t₂.whole;
              at_least =
                  omega (arith, length-append t₁.replies t₂.replies, t₁.at_least, t₂.at_least);
              at_most = omega (arith, length-append t₁.replies t₂.replies, t₁.at_most, t₂.at_most);
              rest = record {
                stream =
                    t₂.rest.stream
                    ∙ ap (λ x. x ++ (f a (m s).1).1.buf)
                        (append_assoc front (concat t₁.replies) (concat t₂.replies)
                          ∙ ap (λ x. front ++ x) (sym (concat-append t₁.replies t₂.replies)));
              };
            });
  }

  pub Reads-wider :
      {A : Type 0} (l₁ m₁ l₂ m₂ : ℕ) (m : Io A) → l₂ ≤ l₁ → m₁ ≤ m₂ → Reads l₁ m₁ m → Reads l₂ m₂ m
  Reads-wider l₁ m₁ l₂ m₂ m lower upper h = record {
    run = λ front s a b q.
        let t = h.run front s a b q in
        record {
          replies = t.replies;
          whole = t.whole;
          at_least = omega (arith, t.at_least, lower);
          at_most = omega (arith, t.at_most, upper);
          rest = t.rest;
        };
  }

  pub Reads-lift : {A : Type 0} (r : Result A) → Reads 0 0 (lift r)
  Reads-lift r = record { run = λ front s a b q. Took-nothing front s b }

  pub Reads-send : (bytes : Bytes) → Reads 0 0 (send peer bytes)
  Reads-send bytes = record {
    run = λ front s a b q. Took-nothing front (send peer bytes s).1 (
        behind front s.buf (send peer bytes s).1
          ((Filled-send peer front s.buf bytes).keep s (filled front s b)));
  }

  -- One reply, behind the header in `s₁.buf`, that has come as a whole in `s₂`.
  auth_taken :
      (front : Bytes) (s s₁ s₂ : Session) (n : ℕ)
      → n ≡ 9 + get_le32 s₁.buf 5
      → IsFilled peer front s.buf s₁
      → 9 ≤ length s₁.buf
      → (at s₁.buf 0 == 0x14) ≡ true
      → IsFilled peer front s₁.buf s₂
      → n ≤ length s₂.buf
      → Took 1 1 front (record s₂ { buf = drop n s₂.buf })
  auth_taken front s s₁ s₂ n e f₁ long marked f₂ enough =
      let same = same_header front s₁.buf s₂ n in
      let message = take n s₂.buf in
      let length_same : get_le32 message 5 ≡ get_le32 s₁.buf 5 = omega (
        arith,
        same 5 f₂ (omega arith) (omega arith),
        same 6 f₂ (omega arith) (omega arith),
        same 7 f₂ (omega arith) (omega arith),
        same 8 f₂ (omega arith) (omega arith),
      ) in
      record {
        replies = message ∷ [];
        whole = (
          record {
            command = same 0 f₂ (omega arith) (omega arith) ∙ (==_iff (at s₁.buf 0) 0x14).0 marked;
            sized = taken_length n s₂ enough ∙ e ∙ ap (λ k. 9 + k) (sym length_same);
          },
          tt,
        );
        at_least = omega arith;
        at_most = omega arith;
        rest =
            subst (λ x. IsBehind (front ++ x) (record s₂ { buf = drop n s₂.buf }))
              (sym (append-nil message)) (taken front n s₂ (behind front s₁.buf s₂ f₂));
      }

  pub Reads-read_auth_reply : Reads 1 1 (read_auth_reply peer)
  unfolding read_auth_reply peek discard auth_reply
  Reads-read_auth_reply = record {
    run = λ front s a b.
        let Q : Result AuthReply × Session → Type 0 = λ r. r.0 ≡ ok a → Took 1 1 front r.1 in
        let s₁ : Session = (fill peer 9 s).1 in
        let n : ℕ = 9 + get_le32 s₁.buf 5 in
        let s₂ : Session = (fill peer n s₁).1 in
        step_rule Q (fill peer 9) s _ (λ e q h. absurd (raised_not_ok h))
          (λ u₁ q₁.
            step_rule Q (lift (refuse (not (at s₁.buf 0 == 0x14)) protocol)) s₁ _
              (λ e q h. absurd (raised_not_ok h))
              (λ u₂ q₂.
                step_rule Q (fill peer n) s₁ _ (λ e q h. absurd (raised_not_ok h))
                  (λ u₃ q₃ h.
                    auth_taken front s s₁ s₂ n refl
                      ((Filled-fill peer front s.buf 9).keep s (filled front s b))
                      (length-fill peer 9 s q₁) (checked _ protocol u₂ q₂)
                      ((Filled-fill peer front s₁.buf n).keep s₁ (
                        filled front s₁ (
                          behind front s.buf s₁
                            ((Filled-fill peer front s.buf 9).keep s (filled front s b)))))
                      (length-fill peer n s₁ q₃))));
  }
