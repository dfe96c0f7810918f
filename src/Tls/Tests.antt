-- ===== src/Tls/Tests.antt =====
-- tls.py: the bytes of two elements, one of them in the long form, and a pinned policy.
use ansible_collection_intel.Prelude.{◌≡◌, refl, ◌≢◌, true, none, some, [], ◌∷◌, Bytes}
use ansible_collection_intel.Errors.{ok, err, index_error}
use ansible_collection_intel.Tls.Policy.{TlsTrustPolicy, create_policy, requests_verify, unverified}
use ansible_collection_intel.Tls.Der.{iter_children}
use ansible_collection_intel.Tls.Elements.{iter_children-ends}

abbrev two_elements : Bytes
two_elements = 2 ∷ 1 ∷ 7 ∷ 4 ∷ 129 ∷ 2 ∷ 8 ∷ 9 ∷ []

two_elements_read : iter_children two_elements ≡ ok (some ((2, 7 ∷ []) ∷ (4, 8 ∷ 9 ∷ []) ∷ []))
unfolding iter_children
two_elements_read = refl

cut_off_raises : iter_children (2 ∷ []) ≡ err index_error
unfolding iter_children
cut_off_raises = refl

iter_children-ends_example : iter_children two_elements ≢ ok none
iter_children-ends_example = iter_children-ends two_elements

abbrev pinned_policy : TlsTrustPolicy
pinned_policy = record { validate_certs = true; ca_path = none; fingerprint = some "ab" }

pinned_created : create_policy some true none (some "ab") ≡ ok pinned_policy
unfolding create_policy
pinned_created = refl

pinned_unverified : requests_verify pinned_policy ≡ unverified
unfolding requests_verify
pinned_unverified = refl
