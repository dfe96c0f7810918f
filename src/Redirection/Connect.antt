-- ===== src/Redirection/Connect.antt =====
-- redirection.py: `connect`, the TLS pin and `_authenticate`.
use ansible_collection_intel.Prelude.{
  ℕ, Bool, true, false, not, ◌&&◌, ◌||◌, Option, none, some, [], ◌∷◌, Bytes, ◌==◌, if◌then◌else◌,
}
use ansible_collection_intel.Errors.{Result, ok, err, refuse, authentication, tls_validation}
use ansible_collection_intel.Effect.{◌>>=◌, ◌>>◌, lift}
use ansible_collection_intel.Redirection.Session.{
  Peer, Crypto, Settings, Session, Io, send, read_start_session_reply, AuthReply, read_auth_reply,
  connected_socket,
}
use ansible_collection_intel.Redirection.Digest.{
  auth_type_query, digest_type_query, parse_challenge, digest_response,
}

abbrev pub has_byte : ℕ → Bytes → Bool
has_byte n [] = false
has_byte n (b ∷ bs) = b == n || has_byte n bs

abbrev pub bytes_eq : Bytes → Bytes → Bool
bytes_eq [] [] = true
bytes_eq [] (y ∷ ys) = false
bytes_eq (x ∷ xs) [] = false
bytes_eq (x ∷ xs) (y ∷ ys) = x == y && bytes_eq xs ys

-- The comparison of `_verify_tls_pin`, for a certificate or none.
unfoldable pub check_pin : Crypto → Bytes → Option (Option Bytes) → Result (Unit {0})
check_pin crypto pin none = err tls_validation
check_pin crypto pin (some none) = err tls_validation
check_pin crypto pin (some (some [])) = err tls_validation
check_pin crypto pin (some (some (b ∷ der))) =
    refuse (not (bytes_eq (crypto.sha256_hex (b ∷ der)) pin)) tls_validation

-- `if self._use_tls and self._tls_pin_sha256: self._verify_tls_pin()`
unfoldable pub verify_tls_pin : Peer → Crypto → Bool → Option Bytes → Io (Unit {0})
unfolding connected_socket check_pin
verify_tls_pin peer crypto false pin = lift (ok tt)
verify_tls_pin peer crypto true none = lift (ok tt)
verify_tls_pin peer crypto true (some []) = lift (ok tt)
verify_tls_pin peer crypto true (some (c ∷ pin)) = do
  connected_socket
  lift (check_pin crypto (c ∷ pin) peer.certificate)

-- The fingerprint of a certificate that was presented.
unfoldable pub fingerprint : Crypto → Option (Option Bytes) → Option Bytes
fingerprint crypto none = none
fingerprint crypto (some none) = none
fingerprint crypto (some (some [])) = none
fingerprint crypto (some (some (b ∷ der))) = some (crypto.sha256_hex (b ∷ der))

-- `peer_certificate_sha256`, of a socket whose `getpeercert` does not raise
unfoldable pub peer_certificate_sha256 : Peer → Crypto → Session → Option Bytes
unfolding fingerprint
peer_certificate_sha256 peer crypto s =
    if s.connected then fingerprint crypto peer.certificate else none

-- `if auth_type == 0:` the reply that follows, else the reply at hand
unfoldable pub query_digest : Peer → Settings → Bool → AuthReply → Io AuthReply
unfolding digest_type_query send read_auth_reply
query_digest peer settings false reply = lift (ok reply)
query_digest peer settings true reply = do
  lift (refuse (not (has_byte 4 reply.auth_data)) authentication)
  query ← lift (digest_type_query settings)
  send peer query
  read_auth_reply peer

-- `if status == 1 and auth_type == 4:` the reply to the digest, else the reply at hand
unfoldable pub answer_challenge : Peer → Crypto → Settings → Bool → AuthReply → Io AuthReply
unfolding parse_challenge digest_response send read_auth_reply
answer_challenge peer crypto settings false reply = lift (ok reply)
answer_challenge peer crypto settings true reply = do
  challenge ← lift (parse_challenge crypto reply.auth_data)
  response ← lift (digest_response crypto settings challenge)
  send peer response
  read_auth_reply peer

-- `_authenticate`
unfoldable pub authenticate : Peer → Crypto → Settings → Io (Unit {0})
unfolding send read_auth_reply query_digest answer_challenge
authenticate peer crypto settings = do
  send peer auth_type_query
  offer ← read_auth_reply peer
  reply ← query_digest peer settings (offer.auth_type == 0) offer
  lift (refuse (reply.auth_type == 1 || reply.auth_type == 3) authentication)
  final ← answer_challenge peer crypto settings (reply.status == 1 && reply.auth_type == 4) reply
  lift (refuse (not (final.status == 0)) authentication)

-- `self._sock = self._socket_factory(…)`
unfoldable pub open_socket : Peer → Io (Unit {0})
open_socket peer s = (peer.opening, record s { connected = is_ok peer.opening })
  where
    is_ok : Result (Unit {0}) → Bool
    is_ok (ok u) = true
    is_ok (err e) = s.connected

-- `leftover = bytes(self._buf)`, `self._buf.clear()`
unfoldable pub take_leftover : Io Bytes
take_leftover s = (ok s.buf, record s { buf = [] })

-- `connect`
unfoldable pub connect : Peer → Crypto → Settings → Io Bytes
unfolding open_socket verify_tls_pin send read_start_session_reply authenticate take_leftover
connect peer crypto settings = do
  open_socket peer
  verify_tls_pin peer crypto settings.use_tls settings.pin
  send peer settings.start_frame
  read_start_session_reply peer
  authenticate peer crypto settings
  take_leftover
