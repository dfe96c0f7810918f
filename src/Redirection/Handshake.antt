-- ===== src/Redirection/Handshake.antt =====
-- redirection.py `connect`: the replies that it takes, and the bytes that it hands on.
use ansible_collection_intel.Prelude.{
  ◌≤◌, ◌≡◌, refl, ap, ◌∙◌, Bool, true, false, not, ◌&&◌, ◌||◌, List, [], ◌++◌, append_assoc, Bytes,
  All, concat, length, ◌==◌, arith,
}
use ansible_collection_intel.Errors.{
  Result, ok, refuse, authentication, ok_injective, raised_not_ok,
}
use ansible_collection_intel.Effect.{step_rule}
use ansible_collection_intel.Redirection.Session.{
  Peer, Crypto, Settings, Session, new_session, send, read_start_session_reply, AuthReply,
}
use ansible_collection_intel.Redirection.Digest.{
  auth_type_query, digest_type_query, parse_challenge, digest_response,
}
use ansible_collection_intel.Redirection.Connect.{
  has_byte, verify_tls_pin, query_digest, answer_challenge, authenticate, open_socket,
  take_leftover, connect,
}
use ansible_collection_intel.Redirection.Stream.{
  received_bytes, Filled-send, Filled-open_socket, Filled-verify_tls_pin,
}
use ansible_collection_intel.Redirection.Messages.{
  IsStartReply, IsAuthReply, IsBehind, filled, behind, start-TookStart, Reads, Reads-bind,
  Reads-wider, Reads-lift, Reads-send, Reads-read_auth_reply,
}

module _ (peer : Peer) where
  module _ (crypto : Crypto) (settings : Settings) where
    Reads-query_digest :
        (b : Bool) (reply : AuthReply) → Reads peer 0 1 (query_digest peer settings b reply)
    unfolding query_digest
    Reads-query_digest false reply =
        Reads-wider peer 0 0 0 1 _ (omega arith) (omega arith) (Reads-lift peer (ok reply))
    Reads-query_digest true reply = Reads-wider peer 1 1 0 1 _ (omega arith) (omega arith) (
        Reads-bind peer 0 0 1 1 _ _
          (Reads-lift peer (refuse (not (has_byte 4 reply.auth_data)) authentication))
          (λ u₁.
            Reads-bind peer 0 0 1 1 _ _ (Reads-lift peer (digest_type_query settings)) (λ query.
              Reads-bind peer 0 0 1 1 _ _ (Reads-send peer query)
                (λ u₂. Reads-read_auth_reply peer))))

    Reads-answer_challenge :
        (b : Bool) (reply : AuthReply)
        → Reads peer 0 1 (answer_challenge peer crypto settings b reply)
    unfolding answer_challenge
    Reads-answer_challenge false reply =
        Reads-wider peer 0 0 0 1 _ (omega arith) (omega arith) (Reads-lift peer (ok reply))
    Reads-answer_challenge true reply = Reads-wider peer 1 1 0 1 _ (omega arith) (omega arith) (
        Reads-bind peer 0 0 1 1 _ _ (Reads-lift peer (parse_challenge crypto reply.auth_data))
          (λ challenge.
            Reads-bind peer 0 0 1 1 _ _
              (Reads-lift peer (digest_response crypto settings challenge))
              (λ response.
                Reads-bind peer 0 0 1 1 _ _ (Reads-send peer response)
                  (λ u. Reads-read_auth_reply peer))))

    Reads-authenticate : Reads peer 1 3 (authenticate peer crypto settings)
    unfolding authenticate
    Reads-authenticate = Reads-bind peer 0 0 1 3 _ _ (Reads-send peer auth_type_query) (λ u₁.
        Reads-bind peer 1 1 0 2 _ _ (Reads-read_auth_reply peer) (λ offer.
          Reads-bind peer 0 1 0 1 _ _ (Reads-query_digest (offer.auth_type == 0) offer) (λ reply.
            Reads-bind peer 0 0 0 1 _ _
              (Reads-lift peer
                (refuse (reply.auth_type == 1 || reply.auth_type == 3) authentication))
              (λ u₂.
                Reads-bind peer 0 1 0 0 _ _
                  (Reads-answer_challenge (reply.status == 1 && reply.auth_type == 4) reply)
                  (λ final. Reads-lift peer (refuse (not (final.status == 0)) authentication))))))

    -- What `connect` took from the peer and what it hands on.
    pub record IsHandshake (leftover : Bytes) (s : Session) : Type 0 where
      pub start_reply : Bytes
      pub auth_replies : List Bytes
      pub start_whole : IsStartReply start_reply
      pub auth_whole : All IsAuthReply auth_replies
      pub at_least_one : 1 ≤ length auth_replies
      pub at_most_three : length auth_replies ≤ 3
      pub stream : received_bytes peer s.received ≡ start_reply ++ (concat auth_replies ++ leftover)

    connect-IsHandshake_from :
        (s : Session) (leftover : Bytes)
        → IsBehind peer [] s
        → (connect peer crypto settings s).0 ≡ ok leftover
        → IsHandshake leftover (connect peer crypto settings s).1
    unfolding connect take_leftover
    connect-IsHandshake_from s₀ leftover b₀ =
        let Q : Result Bytes × Session → Type 0 =
          λ r. r.0 ≡ ok leftover → IsHandshake leftover r.1 in
        let s₁ : Session = (open_socket peer s₀).1 in
        let s₂ : Session = (verify_tls_pin peer crypto settings.use_tls settings.pin s₁).1 in
        let s₃ : Session = (send peer settings.start_frame s₂).1 in
        let s₄ : Session = (read_start_session_reply peer s₃).1 in
        let s₅ : Session = (authenticate peer crypto settings s₄).1 in
        let f₁ = (Filled-open_socket peer [] s₀.buf).keep s₀ (filled peer [] s₀ b₀) in
        let f₂ =
          (Filled-verify_tls_pin peer [] s₀.buf crypto settings.use_tls settings.pin).keep s₁ f₁ in
        let f₃ = (Filled-send peer [] s₀.buf settings.start_frame).keep s₂ f₂ in
        step_rule Q (open_socket peer) s₀ _ (λ e q h. absurd (raised_not_ok h))
          (λ u₁ q₁.
            step_rule Q (verify_tls_pin peer crypto settings.use_tls settings.pin) s₁ _
              (λ e q h. absurd (raised_not_ok h))
              (λ u₂ q₂.
                step_rule Q (send peer settings.start_frame) s₂ _
                  (λ e q h. absurd (raised_not_ok h))
                  (λ u₃ q₃.
                    step_rule Q (read_start_session_reply peer) s₃ _
                      (λ e q h. absurd (raised_not_ok h))
                      (λ u₄ q₄.
                        step_rule Q (authenticate peer crypto settings) s₄ _
                          (λ e q h. absurd (raised_not_ok h))
                          (λ u₅ q₅ h.
                            let t = start-TookStart peer [] s₃ (behind peer [] s₀.buf s₃ f₃) q₄ in
                            let a = Reads-authenticate.run t.message s₄ u₅ t.rest q₅ in
                            record {
                              start_reply = t.message;
                              auth_replies = a.replies;
                              start_whole = t.whole;
                              auth_whole = a.whole;
                              at_least_one = a.at_least;
                              at_most_three = a.at_most;
                              stream =
                                  a.rest.stream
                                  ∙ append_assoc t.message (concat a.replies) s₅.buf
                                  ∙ ap (λ x. t.message ++ (concat a.replies ++ x)) (ok_injective h);
                            })))))

    -- For any peer, library and settings: when `connect` of a new session returns, all that `recv` has
    -- brought is one whole StartRedirectionSessionReply, one to three whole
    -- AuthenticateSessionReplies, and then just the bytes that `connect` hands on, in this order.
    pub connect-IsHandshake :
        (leftover : Bytes)
        → (connect peer crypto settings new_session).0 ≡ ok leftover
        → IsHandshake leftover (connect peer crypto settings new_session).1
    connect-IsHandshake leftover =
        connect-IsHandshake_from new_session leftover record { stream = refl }
