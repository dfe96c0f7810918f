-- ===== src/Redirection/Tests.antt =====
-- redirection.py against a firmware that starts the session and accepts it at once, with one byte
-- of the protocol behind the handshake in the last chunk.
use ansible_collection_intel.Prelude.{
  some, ℕ, zero, suc, ◌≡◌, refl, true, false, none, [], ◌∷◌, ◌++◌, replicate,
}
use ansible_collection_intel.Errors.{ok}
use ansible_collection_intel.Redirection.Session.{
  Peer, Received, chunk, handed_over, Crypto, Settings, Session, new_session, connected_socket,
  send_all, sending_result, send, take_chunk, fill_loop, fill, peek, discard,
  read_start_session_reply, auth_reply, read_auth_reply,
}
use ansible_collection_intel.Redirection.Digest.{Challenge, start_session_ider, parse_challenge}
use ansible_collection_intel.Redirection.Connect.{
  connect, open_socket, verify_tls_pin, query_digest, answer_challenge, authenticate, take_leftover,
}
use ansible_collection_intel.Redirection.Connect.{check_pin, peer_certificate_sha256}
use ansible_collection_intel.Redirection.Pin.{verify_tls_pin-matches}
use ansible_collection_intel.Redirection.Handshake.{IsHandshake, connect-IsHandshake}
use ansible_collection_intel.Redirection.Fields.{packed, parse_challenge-packed}

-- A StartRedirectionSessionReply without OEM data, then an AuthenticateSessionReply with status 0
-- and type 4, cut after its first byte, with the byte 0x41 behind it.
abbrev chunk_at : ℕ → Received
chunk_at zero = chunk (0x11 ∷ (replicate 12 0 ++ 0x14 ∷ []))
chunk_at (suc n) = chunk (0 ∷ 0 ∷ 0 ∷ 4 ∷ 0 ∷ 0 ∷ 0 ∷ 0 ∷ 0x41 ∷ [])

abbrev test_peer : Peer
test_peer = record {
  opening = ok tt;
  recv = chunk_at;
  sending = λ n. handed_over;
  certificate = none;
}

abbrev test_crypto : Crypto
test_crypto = record {
  md5_hex = λ bytes. replicate 32 0x61;
  sha256_hex = λ bytes. replicate 64 0x62;
  is_utf8 = λ bytes. true;
  cnonce = replicate 32 0x63;
}

abbrev test_settings : Settings
test_settings = record {
  username = 0x61 ∷ [];
  password = 0x70 ∷ [];
  use_tls = false;
  pin = none;
  start_frame = start_session_ider;
}

connected_with_leftover :
    (connect test_peer test_crypto test_settings new_session).0 ≡ ok (0x41 ∷ [])
unfolding connect open_socket verify_tls_pin send connected_socket send_all sending_result
    read_start_session_reply fill fill_loop take_chunk peek discard authenticate read_auth_reply
    auth_reply query_digest answer_challenge take_leftover
connected_with_leftover = refl

connect-IsHandshake_example :
    IsHandshake test_peer test_crypto test_settings
      (0x41 ∷ [])
      (connect test_peer test_crypto test_settings new_session).1
connect-IsHandshake_example =
    connect-IsHandshake test_peer test_crypto test_settings (0x41 ∷ []) connected_with_leftover

abbrev open_session : Session
open_session = record { connected = true; buf = []; received = 0; sent = [] }

abbrev test_challenge : Challenge
test_challenge = record { realm = 0x72 ∷ []; nonce = 0x6e ∷ 0x6f ∷ []; qop = 0x61 ∷ [] }

parse_challenge-packed_example :
    parse_challenge test_crypto
      (packed ((0x72 ∷ []) ∷ (0x6e ∷ 0x6f ∷ []) ∷ (0x61 ∷ []) ∷ []) ++ 0xff ∷ [])
    ≡ ok test_challenge
parse_challenge-packed_example =
    parse_challenge-packed test_crypto (0x72 ∷ []) (0x6e ∷ 0x6f ∷ []) (0x61 ∷ []) (0xff ∷ []) refl
      refl refl

-- A peer with a certificate, and the fingerprint that `test_crypto` gives it.
abbrev tls_peer : Peer
tls_peer = record test_peer { certificate = some (some (0x30 ∷ [])) }

verify_tls_pin-matches_example :
    (open_session.connected ≡ true)
    × (peer_certificate_sha256 tls_peer test_crypto open_session ≡ some (replicate 64 0x62))
unfolding verify_tls_pin connected_socket check_pin
verify_tls_pin-matches_example =
    verify_tls_pin-matches tls_peer test_crypto 0x62 (replicate 63 0x62) open_session refl
