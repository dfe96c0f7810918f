-- ===== src/Redirection/Pin.antt =====
-- redirection.py `_verify_tls_pin`: what a pin that was verified says of the peer.
use ansible_collection_intel.Prelude.{
  ℕ, ◌≡◌, refl, ap, ap₂, ◌∙◌, Bool, true, false, not, Option, none, some, [], ◌∷◌, Bytes, ◌==◌,
  ==_iff, if◌then◌else◌, arith,
}
use ansible_collection_intel.Errors.{Error, ok, refuse, connection, tls_validation}
use ansible_collection_intel.Effect.{resume_ok}
use ansible_collection_intel.Redirection.Session.{Peer, Crypto, Session, connected_socket}
use ansible_collection_intel.Redirection.Connect.{
  bytes_eq, check_pin, verify_tls_pin, fingerprint, peer_certificate_sha256,
}

bytes_eq_sound : (a b : Bytes) → bytes_eq a b ≡ true → a ≡ b
bytes_eq_sound [] [] h = refl
bytes_eq_sound [] (y ∷ b) h = cc
bytes_eq_sound (x ∷ a) [] h = cc
bytes_eq_sound (x ∷ a) (y ∷ b) h =
    let both : ((x == y) ≡ true) × (bytes_eq a b ≡ true) = ground (arith, h) in
    ap₂ (λ u v. u ∷ v) ((==_iff x y).0 both.0) (bytes_eq_sound a b both.1)

not_refused : (b : Bool) (e : Error) (u : Unit) → refuse (not b) e ≡ ok u → b ≡ true
not_refused true e u h = refl
not_refused false e u h = cc

check_pin-fingerprint :
    (crypto : Crypto) (pin : Bytes) (o : Option (Option Bytes)) (u : Unit)
    → check_pin crypto pin o ≡ ok u
    → fingerprint crypto o ≡ some pin
unfolding check_pin fingerprint
check_pin-fingerprint crypto pin none u h = cc
check_pin-fingerprint crypto pin (some none) u h = cc
check_pin-fingerprint crypto pin (some (some [])) u h = cc
check_pin-fingerprint crypto pin (some (some (b ∷ der))) u h =
    ap some (bytes_eq_sound (crypto.sha256_hex (b ∷ der)) pin (not_refused _ tls_validation u h))

-- For any peer, library and state: when the verification of a non-empty pin under TLS returns, the
-- session is connected to a peer whose certificate has the pin as its SHA-256 fingerprint.
pub verify_tls_pin-matches :
    (peer : Peer) (crypto : Crypto) (c : ℕ) (pin : Bytes) (s : Session)
    → (verify_tls_pin peer crypto true (some (c ∷ pin)) s).0 ≡ ok tt
    → (s.connected ≡ true) × (peer_certificate_sha256 peer crypto s ≡ some (c ∷ pin))
unfolding verify_tls_pin connected_socket peer_certificate_sha256
verify_tls_pin-matches peer crypto c pin s h = resume_ok _ _ _ tt h (λ u e k.
    let up = not_refused s.connected connection u e in
    (
      up,
      ap (λ b. if b then fingerprint crypto peer.certificate else none) up
          ∙ check_pin-fingerprint crypto (c ∷ pin) peer.certificate tt k,
    ))
