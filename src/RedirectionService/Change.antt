-- ===== src/RedirectionService/Change.antt =====
-- redirection_service.py: a state change that was validated enables only what the firmware supports.
use ansible_collection_intel.Prelude.{
  pos, ℕ, Bool, true, false, not, ◌&&◌, ◌||◌, Option, none, some, String, ◌≡◌, refl, lookup, str_eq,
  if◌then◌else◌,
}
use ansible_collection_intel.Errors.{Result, ok, ◌>>=◌, ◌>>◌, refuse, unsupported_capability}
use ansible_collection_intel.RedirectionService.{
  state_name_to_enabled_state, RedirectionCapabilities, from_enabled_state, is_one_of,
  enabled_state_of, validate_state_change,
}

-- Names the state `n`: what is then enabled is supported.
pub record IsAllowed (capabilities : RedirectionCapabilities) (name : String) : Type 0 where
  pub requested : ℕ
  pub named : lookup name state_name_to_enabled_state ≡ some requested
  pub ider :
      (from_enabled_state (some (pos requested)) true).ider_enabled ≡ true
      → capabilities.ider_supported ≡ true
  pub sol :
      (from_enabled_state (some (pos requested)) true).sol_enabled ≡ true
      → capabilities.sol_supported ≡ true

-- The chain of tests that a name goes through, and what each branch may enable.
Allowed : Option ℕ → Bool → Bool → Type 0
Allowed o ider_supported sol_supported =
    (requested : ℕ) × (o ≡ some requested)
    × (is_one_of 32769 32771 (pos requested) ≡ true → ider_supported ≡ true)
    × (is_one_of 32770 32771 (pos requested) ≡ true → sol_supported ≡ true)

checks : Option ℕ → Bool → Bool → Bool → Bool → Result (Unit {0})
checks o wants_ider wants_sol ider_supported sol_supported = enabled_state_of o >>= λ n.
    refuse (wants_ider && not ider_supported) unsupported_capability
    >> refuse (wants_sol && not sol_supported) unsupported_capability

by_tests :
    (d i s a ider sol : Bool)
    → checks
        (if d
          then some 32768
          else if i
          then some 32769
          else if s
          then some 32770
          else if a
          then some 32771
          else none)
        (i || a)
        (s || a)
        ider
        sol
      ≡ ok tt
    → Allowed
        (if d
          then some 32768
          else if i
          then some 32769
          else if s
          then some 32770
          else if a
          then some 32771
          else none)
        ider
        sol
unfolding checks enabled_state_of is_one_of Allowed
by_tests true i s a ider sol h = (32768, refl, (λ e. cc), (λ e. cc))
by_tests false true s a true sol h = (32769, refl, (λ e. refl), (λ e. cc))
by_tests false true s a false sol h = cc
by_tests false false true a ider true h = (32770, refl, (λ e. cc), (λ e. refl))
by_tests false false true true true false h = cc
by_tests false false true true false false h = cc
by_tests false false true false ider false h = cc
by_tests false false false true true true h = (32771, refl, (λ e. refl), (λ e. refl))
by_tests false false false true true false h = cc
by_tests false false false true false sol h = cc
by_tests false false false false ider sol h = cc

-- For any capabilities and any text: when validation returns, the text names a state of the table,
-- and the state that is then requested, read back as the firmware's, has IDE-R enabled only if
-- the firmware supports it, and SOL enabled only if the firmware supports that.
pub validate_state_change-IsAllowed :
    (capabilities : RedirectionCapabilities) (name : String)
    → validate_state_change capabilities name ≡ ok tt
    → IsAllowed capabilities name
unfolding validate_state_change from_enabled_state lookup checks Allowed
validate_state_change-IsAllowed capabilities name h =
    let r =
      by_tests (str_eq "disabled" name) (str_eq "ider" name) (str_eq "sol" name) (str_eq "all" name)
        capabilities.ider_supported capabilities.sol_supported h in
    record { requested = r.0; named = r.1; ider = r.2; sol = r.3 }
