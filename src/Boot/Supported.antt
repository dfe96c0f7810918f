-- ===== src/Boot/Supported.antt =====
-- boot.py: what the firmware has advertised when `discover_and_validate` returns, and what a plan
-- of `build_boot_plan` is.
use ansible_collection_intel.Prelude.{
  Bool, true, false, not, ◌&&◌, Option, none, some, String, List, [], ◌∷◌, ◌++◌, ◌≡◌, refl, sym, ap,
  ◌∙◌, Dict, lookup, str_eq, if◌then◌else◌, if_false, subst,
}
use ansible_collection_intel.Errors.{
  Error, Result, ok, err, refuse, value_error, unsupported_capability,
}
use ansible_collection_intel.Client.{Instance, Call, enumerated, WsmanClient, resume_ok, enumerate}
use ansible_collection_intel.Boot.Plan.{
  BootPlan, TargetSpec, target_specs, plan_of_spec, boot_plan, is_some, build_boot_plan,
}
use ansible_collection_intel.Boot.Discovery.{
  discover_and_validate, check_sources, matching, only, required, truthy,
}
use ansible_collection_intel.Boot.Advertised.{
  documented_capabilities, documented_sources, Advertises, truthy-Advertises, IsOneOf,
  matching-IsOneOf,
}

only_ok {ℓ} : {A : Type ℓ} (xs : List A) (x : A) → only xs ≡ ok x → xs ≡ x ∷ []
unfolding only
only_ok [] x h = cc
only_ok (y ∷ []) x h = cc
only_ok (y ∷ (z ∷ zs)) x h = cc

required_ok {ℓ} : {A : Type ℓ} (o : Option A) (a : A) → required o ≡ ok a → o ≡ some a
unfolding required
required_ok none a h = cc
required_ok (some b) a h = cc

some_eq {ℓ} : {A : Type ℓ} {a b : A} → some a ≡ some b → a ≡ b
some_eq q = cc

not_refused : (b : Bool) (e : Error) (u : Unit) → refuse (not b) e ≡ ok u → b ≡ true
not_refused true e u h = refl
not_refused false e u h = cc

-- Of the sources that the firmware listed exactly one has the InstanceID.
pub record IsListed (client : WsmanClient) (calls : List Call) (id : String) : Type 0 where
  pub sources : List Instance
  pub listed : client.answer_enumerate calls "CIM_BootSourceSetting" ≡ ok sources
  pub unique : IsOneOf id sources

-- The firmware has one AMT_BootCapabilities instance, which advertises the target's field, and one
-- boot source for the target, if the target names one.
pub record IsSupported (client : WsmanClient) (fold : String → String) (target : String)
    (calls : List Call) : Type 0 where
  pub capabilities : Instance
  pub field : String
  pub advertised : client.answer_enumerate calls "AMT_BootCapabilities" ≡ ok (capabilities ∷ [])
  pub named : lookup target documented_capabilities ≡ some field
  pub capable : Advertises fold (lookup field capabilities)
  pub source :
      (id : String)
      → lookup target documented_sources ≡ some id
      → IsListed client (calls ++ enumerated "AMT_BootCapabilities" ∷ []) id

check_sources-IsListed :
    (client : WsmanClient) (calls : List Call) (o : Option String) (u : Unit)
    → (check_sources client o calls).0 ≡ ok u
    → (id : String) → o ≡ some id
    → IsListed client calls id
unfolding check_sources enumerate
check_sources-IsListed client calls none u h id e = cc
check_sources-IsListed client calls (some x) u h id e = resume_ok _ _ _ u h (λ sources listed h₁.
    resume_ok _ _ _ u h₁ (λ source unique h₂. record {
      sources = sources;
      listed = listed;
      unique =
          subst (λ i. IsOneOf i sources) (some_eq e)
            (matching-IsOneOf x sources source (only_ok (matching x sources) source unique));
    }))

-- When discovery returns, for any client and after any calls: the firmware has listed exactly one
-- AMT_BootCapabilities instance, in which the target's field, as docs/protocol-notes.md lists it, has
-- a value that advertises it, and, for a target that the notes list with a boot source, exactly one
-- CIM_BootSourceSetting with that InstanceID.
pub discover_and_validate-IsSupported :
    (client : WsmanClient) (fold : String → String) (target : String) (calls : List Call)
    → (discover_and_validate client fold target calls).0 ≡ ok tt
    → IsSupported client fold target calls
unfolding discover_and_validate enumerate
discover_and_validate-IsSupported client fold target calls h =
    resume_ok _ _ _ tt h (λ instances a h₁. resume_ok _ _ _ tt h₁ (λ capabilities b h₂.
      resume_ok _ _ _ tt h₂ (λ field c h₃. resume_ok _ _ _ tt h₃ (λ u d h₄. record {
        capabilities = capabilities;
        field = field;
        advertised = a ∙ ap ok (only_ok instances capabilities b);
        named = required_ok (lookup target documented_capabilities) field c;
        capable =
            truthy-Advertises fold (lookup field capabilities)
              (not_refused (truthy fold (lookup field capabilities)) unsupported_capability u d);
        source = check_sources-IsListed client _ (lookup target documented_sources) tt h₄;
      }))))

-- What `build_boot_plan` gives for a target: an unknown target is the ValueError, never the error of
-- the check in `__post_init__`; a plan is for the target, and names no boot source under IDE-R.
abbrev pub IsPlanOf : String → Result BootPlan → Type 0
IsPlanOf target (err e) = e ≡ value_error
IsPlanOf target (ok plan) =
    (plan.target ≡ target) × (plan.use_ider ≡ true → plan.boot_source_instance_id ≡ none)

-- A row of the table of targets never combines IDE-R with a boot source.
abbrev IsExclusive : TargetSpec → Type 0
IsExclusive spec = (spec.use_ider && is_some spec.boot_source_instance_id) ≡ false

AllExclusive : Dict TargetSpec → Type 0
AllExclusive [] = Unit
AllExclusive ((k, spec) ∷ specs) = IsExclusive spec × AllExclusive specs

lookup-IsExclusive :
    (target : String) (specs : Dict TargetSpec) (spec : TargetSpec)
    → AllExclusive specs
    → lookup target specs ≡ some spec
    → IsExclusive spec
unfolding AllExclusive lookup
lookup-IsExclusive target [] spec h e = cc
lookup-IsExclusive target ((k, x) ∷ specs) spec h e =
    by_key (str_eq k target) (lookup-IsExclusive target specs spec h.1) e
  where
    by_key :
        (b : Bool)
        → (lookup target specs ≡ some spec → IsExclusive spec)
        → (if b then some x else lookup target specs) ≡ some spec
        → IsExclusive spec
    by_key true rest q = subst IsExclusive (some_eq q) h.0
    by_key false rest q = rest q

no_source : (o : Option String) (b : Bool) → (b && is_some o) ≡ false → b ≡ true → o ≡ none
no_source none b h e = refl
no_source (some s) true h e = cc
no_source (some s) false h e = cc

plan_of_spec-IsPlanOf :
    (target : String) (o : Option TargetSpec)
    → ((spec : TargetSpec) → o ≡ some spec → IsExclusive spec)
    → IsPlanOf target (plan_of_spec target o)
unfolding plan_of_spec boot_plan
plan_of_spec-IsPlanOf target none h = refl
plan_of_spec-IsPlanOf target (some spec) h =
    subst (IsPlanOf target) (sym (if_false _ _ _ (h spec refl)))
      (refl, no_source spec.boot_source_instance_id spec.use_ider (h spec refl))

-- For every target text: an unknown target is refused with ValueError and with nothing else; a
-- plan is for the target asked for, and one that uses IDE-R names no boot source.
pub build_boot_plan-IsPlanOf : (target : String) → IsPlanOf target (build_boot_plan target)
unfolding build_boot_plan AllExclusive target_specs lookup
build_boot_plan-IsPlanOf target = plan_of_spec-IsPlanOf target (lookup target target_specs) (λ spec.
    lookup-IsExclusive target target_specs spec (refl, (refl, (refl, (refl, (refl, (refl, tt)))))))
