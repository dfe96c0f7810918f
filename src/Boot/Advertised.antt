-- ===== src/Boot/Advertised.antt =====
-- boot.py: when a capability is advertised, and when one source has the InstanceID, described apart
-- from the code's own tests.
use ansible_collection_intel.Prelude.{
  true, false, not, Option, none, some, String, List, [], ◌∷◌, ◌++◌, ◌≡◌, refl, sym, ap, ◌∙◌, Dict,
  lookup, str_eq, if_false, if_true, ◌≢◌, ◌||◌, ℤ, pos, int_eq_iff, eq_iff, Bool-cases, inl, inr,
  true_not_false, All,
}
use ansible_collection_intel.Client.{
  Value, text, flag, number, null, sequence, mapping, epr, Values, no_values, more_values, Fields,
  no_fields, more_fields, Instance,
}
use ansible_collection_intel.Boot.Discovery.{matching, truthy, is_text}

cons_not_nil {ℓ} : {A : Type ℓ} {x : A} {xs : List A} → x ∷ xs ≡ [] → ⊥
cons_not_nil h = cc

cons_tail {ℓ} : {A : Type ℓ} {x y : A} {xs ys : List A} → x ∷ xs ≡ y ∷ ys → xs ≡ ys
cons_tail h = cc

-- The capability of each target and the boot source of each that names one, as
-- docs/protocol-notes.md, 2.5, lists them.
abbrev pub documented_capabilities : Dict String
documented_capabilities =
    ("pxe", "ForcePXEBoot")
    ∷ ("hdd", "ForceHardDriveBoot")
    ∷ ("cd", "ForceCDorDVDBoot")
    ∷ ("bios", "BIOSSetup")
    ∷ ("ider_floppy", "IDER")
    ∷ ("ider_cdrom", "IDER")
    ∷ []

abbrev pub documented_sources : Dict String
documented_sources =
    ("pxe", "Intel(r) AMT: Force PXE Boot")
    ∷ ("hdd", "Intel(r) AMT: Force Hard-drive Boot")
    ∷ ("cd", "Intel(r) AMT: Force CD/DVD Boot")
    ∷ []

-- The values that advertise a capability; a text does so by the words "true" and "1" only.
pub data IsAdvertised (fold : String → String) : Value → Type 0 where
  by_flag : IsAdvertised fold (flag true)
  by_true : {s : String} → fold s ≡ "true" → IsAdvertised fold (text s)
  by_one : {s : String} → fold s ≡ "1" → IsAdvertised fold (text s)
  by_number : {n : ℤ} → n ≢ pos 0 → IsAdvertised fold (number n)
  by_list : {v : Value} {vs : Values} → IsAdvertised fold (sequence (more_values v vs))
  by_mapping :
      {k : String} {v : Value} {fs : Fields} → IsAdvertised fold (mapping (more_fields k v fs))
  by_reference : {name : String} {selectors : Dict String} → IsAdvertised fold (epr name selectors)

-- The property is there, with a value that advertises.
abbrev pub Advertises : (String → String) → Option Value → Type 0
Advertises fold o = (v : Value) × (o ≡ some v) × IsAdvertised fold v

Advertises-values :
    (fold : String → String) (vs : Values)
    → truthy fold (some (sequence vs)) ≡ true
    → IsAdvertised fold (sequence vs)
unfolding truthy
Advertises-values fold no_values h = cc
Advertises-values fold (more_values v vs) h = by_list

Advertises-fields :
    (fold : String → String) (fs : Fields)
    → truthy fold (some (mapping fs)) ≡ true
    → IsAdvertised fold (mapping fs)
unfolding truthy
Advertises-fields fold no_fields h = cc
Advertises-fields fold (more_fields k v fs) h = by_mapping

truthy-IsAdvertised :
    (fold : String → String) (v : Value) → truthy fold (some v) ≡ true → IsAdvertised fold v
unfolding truthy
truthy-IsAdvertised fold (flag true) h = by_flag
truthy-IsAdvertised fold (flag false) h = cc
truthy-IsAdvertised fold (text s) h = elim (Bool-cases (str_eq (fold s) "true")) [
  | inl e ↦ by_true ((eq_iff (fold s) "true").0 e)
  | inr e ↦ by_one ((eq_iff (fold s) "1").0 (ap (λ b. b || str_eq (fold s) "1") (sym e) ∙ h))
]
truthy-IsAdvertised fold (number n) h =
    by_number (λ z. true_not_false (sym h ∙ ap not ((int_eq_iff n (pos 0)).1 z)))
truthy-IsAdvertised fold null h = cc
truthy-IsAdvertised fold (sequence vs) h = Advertises-values fold vs h
truthy-IsAdvertised fold (mapping fs) h = Advertises-fields fold fs h
truthy-IsAdvertised fold (epr name selectors) h = by_reference

pub truthy-Advertises :
    (fold : String → String) (o : Option Value) → truthy fold o ≡ true → Advertises fold o
truthy-Advertises fold (some v) h = (v, refl, truthy-IsAdvertised fold v h)
truthy-Advertises fold none h = unfold truthy in cc

abbrev pub HasId : String → Instance → Type 0
HasId id source = lookup "InstanceID" source ≡ some (text id)

-- Exactly one of the sources has the InstanceID.
pub record IsOneOf (id : String) (sources : List Instance) : Type 0 where
  pub before : List Instance
  pub source : Instance
  pub after : List Instance
  pub split : sources ≡ before ++ source ∷ after
  pub has_id : HasId id source
  pub none_before : All (λ other. HasId id other → ⊥) before
  pub none_after : All (λ other. HasId id other → ⊥) after

is_text_sound : (id : String) (o : Option Value) → is_text id o ≡ true → o ≡ some (text id)
unfolding is_text
is_text_sound id (some (text t)) h = ap (λ s. some (text s)) ((eq_iff t id).0 h)
is_text_sound id (some (flag b)) h = cc
is_text_sound id (some (number n)) h = cc
is_text_sound id (some null) h = cc
is_text_sound id (some (sequence vs)) h = cc
is_text_sound id (some (mapping fs)) h = cc
is_text_sound id (some (epr name selectors)) h = cc
is_text_sound id none h = cc

is_text_complete : (id : String) (o : Option Value) → o ≡ some (text id) → is_text id o ≡ true
unfolding is_text
is_text_complete id o h = rw (h) ((eq_iff id id).1 refl)

not_id :
    (id : String) (source : Instance)
    → is_text id (lookup "InstanceID" source) ≡ false
    → HasId id source
    → ⊥
not_id id source e h = true_not_false (sym (is_text_complete id _ h) ∙ e)

matching-none :
    (id : String) (sources : List Instance)
    → matching id sources ≡ []
    → All (λ other. HasId id other → ⊥) sources
unfolding matching
matching-none id [] h = tt
matching-none id (source ∷ sources) h =
    elim (Bool-cases (is_text id (lookup "InstanceID" source))) [
      | inl e ↦ absurd (cons_not_nil (sym (if_true _ _ _ e) ∙ h))
      | inr e ↦ (not_id id source e, matching-none id sources (sym (if_false _ _ _ e) ∙ h))
    ]

pub matching-IsOneOf :
    (id : String) (sources : List Instance) (source : Instance)
    → matching id sources ≡ source ∷ []
    → IsOneOf id sources
unfolding matching
matching-IsOneOf id [] source h = absurd (cons_not_nil (sym h))
matching-IsOneOf id (first ∷ sources) source h =
    elim (Bool-cases (is_text id (lookup "InstanceID" first))) [
      | inl e ↦ record {
        before = [];
        source = first;
        after = sources;
        split = refl;
        has_id = is_text_sound id (lookup "InstanceID" first) e;
        none_before = tt;
        none_after = matching-none id sources (cons_tail (sym (if_true _ _ _ e) ∙ h));
      }
      | inr e ↦
          let rest = matching-IsOneOf id sources source (sym (if_false _ _ _ e) ∙ h) in
          record {
            before = first ∷ rest.before;
            source = rest.source;
            after = rest.after;
            split = ap (λ xs. first ∷ xs) rest.split;
            has_id = rest.has_id;
            none_before = (not_id id first e, rest.none_before);
            none_after = rest.none_after;
          }
    ]
