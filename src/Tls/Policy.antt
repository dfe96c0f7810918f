-- ===== src/Tls/Policy.antt =====
-- tls.py: the transport policy, the port and TlsTrustPolicy. `normalize` stands for
-- `normalize_fingerprint`, which strips and tests text, `none` where it raises.
use ansible_collection_intel.Prelude.{
  ℕ, Bool, true, false, not, ◌&&◌, ◌||◌, Option, none, some, String, str_eq, if◌then◌else◌,
}
use ansible_collection_intel.Errors.{Result, ok, err, refuse, ◌>>=◌, ◌>>◌, tls_validation}

abbrev pub default_tls_port : ℕ
default_tls_port = 16993

abbrev pub default_plaintext_port : ℕ
default_plaintext_port = 16992

unfoldable pub resolve_port : Option ℕ → Bool → ℕ
resolve_port (some port) use_tls = port
resolve_port none use_tls = if use_tls then default_tls_port else default_plaintext_port

unfoldable pub enforce_transport_policy : Bool → Bool → Result (Unit {0})
enforce_transport_policy use_tls allow_insecure_transport =
    refuse (not (use_tls || allow_insecure_transport)) tls_validation

pub record TlsTrustPolicy : Type 0 where
  pub validate_certs : Bool
  pub ca_path : Option String
  pub fingerprint : Option String

-- the value of `verify=`
pub data Verify : Type 0 where
  unverified verified : Verify
  verified_by : String → Verify

-- an option that is given and not empty
unfoldable pub given : Option String → Bool
given none = false
given (some s) = not (str_eq s "")

module _ (normalize : String → Option String) where
  unfoldable pub normalized : String → Result (Option String)
  normalized raw = elim (normalize raw) [ none ↦ err tls_validation | some s ↦ ok (some s) ]

  -- `normalize_fingerprint(tls_fingerprint) if tls_fingerprint else None`
  unfoldable pub fingerprint_of : Option String → Result (Option String)
  unfolding normalized
  fingerprint_of none = ok none
  fingerprint_of (some raw) = if str_eq raw "" then ok none else normalized raw

  -- `TlsTrustPolicy.create`
  unfoldable pub create_policy : Bool → Option String → Option String → Result TlsTrustPolicy
  unfolding given fingerprint_of
  create_policy validate_certs ca_path tls_fingerprint =
      refuse (given ca_path && given tls_fingerprint) tls_validation
      >> (fingerprint_of tls_fingerprint >>= λ fingerprint.
          ok record {
            validate_certs = validate_certs;
            ca_path = ca_path;
            fingerprint = fingerprint;
          })

-- `pinned`
unfoldable pub pinned : TlsTrustPolicy → Bool
pinned policy = elim policy.fingerprint [ none ↦ false | some f ↦ true ]

unfoldable pub verify_path : Option String → Verify
verify_path none = verified
verify_path (some path) = if str_eq path "" then verified else verified_by path

unfoldable pub requests_verify : TlsTrustPolicy → Verify
unfolding pinned verify_path
requests_verify policy =
    if pinned policy
    then unverified
    else (if not policy.validate_certs then unverified else verify_path policy.ca_path)
