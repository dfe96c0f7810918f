-- ===== src/Tls/Trust.antt =====
-- tls.py: what `TlsTrustPolicy.create` lets a connection trust.
use ansible_collection_intel.Prelude.{
  ◌≡◌, refl, sym, ap, ◌∙◌, Bool, true, false, Bool-cases, Option, none, some, String, str_eq, not,
  ◌&&◌, inl, inr, ◌⊎◌, ◌≢◌, if◌then◌else◌,
}
use ansible_collection_intel.Errors.{
  Result, ok, raised_not_ok, ok_injective, Error, tls_validation, refuse, ◌>>◌, ◌>>=◌,
}
use ansible_collection_intel.Tls.Policy.{
  given, fingerprint_of, TlsTrustPolicy, create_policy, pinned, unverified, verified, verified_by,
  verify_path, requests_verify,
}

verifies : (b : Bool) (path : String) → (if b then verified else verified_by path) ≢ unverified
verifies true path e = cc
verifies false path e = cc

verify_path-verifies : (ca_path : Option String) → verify_path ca_path ≢ unverified
unfolding verify_path
verify_path-verifies none e = cc
verify_path-verifies (some path) e = verifies (str_eq path "") path e

-- what is verified without a pin
unpinned-validates :
    (validate_certs : Bool) (ca_path : Option String)
    → requests_verify
        record { validate_certs = validate_certs; ca_path = ca_path; fingerprint = none }
      ≡ unverified
    → validate_certs ≡ false
unfolding requests_verify pinned
unpinned-validates false ca_path e = refl
unpinned-validates true ca_path e = absurd (verify_path-verifies ca_path e)

refused-passes :
    (check : Bool) (raised : Error) (rest : Result TlsTrustPolicy) (policy : TlsTrustPolicy)
    → (refuse check raised >> rest) ≡ ok policy
    → check ≡ false × rest ≡ ok policy
refused-passes true raised rest policy e = absurd (raised_not_ok e)
refused-passes false raised rest policy e = (refl, e)

second_not_given : (a b : Bool) → (a && b) ≡ false → b ≡ true → a ≡ false
second_not_given false b e k = refl
second_not_given true b e k = cc

not-false : (b : Bool) → not b ≡ false → b ≡ true
not-false true e = refl
not-false false e = cc

module _ (normalize : String → Option String) where
  not_given-unpinned :
      (tls_fingerprint : Option String)
      → given tls_fingerprint ≡ false
      → fingerprint_of normalize tls_fingerprint ≡ ok none
  unfolding given fingerprint_of
  not_given-unpinned none e = refl
  not_given-unpinned (some raw) e = rw (not-false (str_eq raw "") e) refl

  -- A trust policy that is created leaves the certificate's chain unverified only where the caller
  -- asked not to validate certificates, or gave a fingerprint and no bundle.
  pub create_policy-unverified :
      (validate_certs : Bool) (ca_path tls_fingerprint : Option String) (policy : TlsTrustPolicy)
      → create_policy normalize validate_certs ca_path tls_fingerprint ≡ ok policy
      → requests_verify policy ≡ unverified
      → validate_certs ≡ false ⊎ given tls_fingerprint ≡ true × given ca_path ≡ false
  unfolding create_policy
  create_policy-unverified validate_certs ca_path tls_fingerprint policy created lax =
      let passed =
        refused-passes (given ca_path && given tls_fingerprint) tls_validation _ policy created in
      elim (Bool-cases (given tls_fingerprint)) [
        | inl pin ↦ inr (pin, second_not_given (given ca_path) (given tls_fingerprint) passed.0 pin)
        | inr no_pin ↦ inl (
            unpinned-validates validate_certs ca_path (
              ap requests_verify (
                ok_injective (
                  sym (
                    ap
                      (λ r. r >>= λ fingerprint. ok record {
                        validate_certs = validate_certs;
                        ca_path = ca_path;
                        fingerprint = fingerprint;
                      })
                      (not_given-unpinned tls_fingerprint no_pin))
                  ∙ passed.1))
              ∙ lax))
      ]
