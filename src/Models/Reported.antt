-- ===== src/Models/Reported.antt =====
-- models.py: what a property that the firmware reports, or does not report, is turned into.
use ansible_collection_intel.Prelude.{
  ◌≡◌, ◌≢◌, ◌⊎◌, ◌↔◌, inl, inr, refl, sym, ap, ap₂, ◌++◌, ◌∙◌, subst, ℤ, pos, negsuc, Bool, true,
  false, ◌||◌, Option, none, some, String, List, [], ◌∷◌, map_option, ◌==◌, ==_iff, str_eq, eq_iff,
  Bool-cases, none_not_some, true_not_false, some_injective, arith,
}
use ansible_collection_intel.Client.{
  Value, text, flag, number, null, sequence, mapping, epr, Instance, Values, no_values, more_values,
}
use ansible_collection_intel.Models.{
  Python, get_value, is_blank, truthy, optional_bool, kept, optional_int, to_str, elements,
}
use ansible_collection_intel.Models.State.{
  is_sx, any, link_policy_values, ethernet_settings, all_policy_values, policy_values,
}

-- `i` is in the list.
pub data IsIn (i : ℤ) : List ℤ → Type 0 where
  here : {j : ℤ} {is : List ℤ} → i ≡ j → IsIn i (j ∷ is)
  there : {j : ℤ} {is : List ℤ} → IsIn i is → IsIn i (j ∷ is)

-- A list with a policy that keeps the link up outside S0, on mains or on battery.
abbrev pub HasSx : List ℤ → Type 0
HasSx policies = IsIn (pos 14) policies ⊎ IsIn (pos 224) policies

is_sx_iff : (i : ℤ) → (is_sx i ≡ true) ↔ ((i ≡ pos 14) ⊎ (i ≡ pos 224))
unfolding is_sx
is_sx_iff (pos n) = (
  λ h. elim (Bool-cases (n == 14)) [
    | inl e ↦ inl (ap pos ((==_iff n 14).0 e))
    | inr e ↦ inr (ap pos (ground (arith, e, h)))
  ],
  λ h. elim h [
    | inl e ↦ subst (λ i. is_sx i ≡ true) (sym e) refl
    | inr e ↦ subst (λ i. is_sx i ≡ true) (sym e) refl
  ],
)
is_sx_iff (negsuc n) = (λ h. cc, λ h. elim h [ inl e ↦ cc | inr e ↦ cc ])

HasSx-there : (j : ℤ) (is : List ℤ) → HasSx is → HasSx (j ∷ is)
HasSx-there j is (inl h) = inl (there h)
HasSx-there j is (inr h) = inr (there h)

any-HasSx : (is : List ℤ) → any is_sx is ≡ true → HasSx is
unfolding any
any-HasSx [] h = cc
any-HasSx (j ∷ is) h = elim (Bool-cases (is_sx j)) [
  | inl e ↦ elim ((is_sx_iff j).0 e) [
    | inl is_ac ↦ inl (here (sym is_ac))
    | inr is_dc ↦ inr (here (sym is_dc))
  ]
  | inr e ↦ HasSx-there j is (any-HasSx is (ap (λ b. b || any is_sx is) (sym e) ∙ h))
]

IsIn-any : (i : ℤ) (is : List ℤ) → IsIn i is → is_sx i ≡ true → any is_sx is ≡ true
unfolding any
IsIn-any i [] found h = elim found [ ]
IsIn-any i (j ∷ is) (here e) h = rw (sym e, h) refl
IsIn-any i (j ∷ is) (there found) h = elim (Bool-cases (is_sx j)) [
  | inl e ↦ rw (e) refl
  | inr e ↦ rw (e) (IsIn-any i is found h)
]

HasSx-any : (is : List ℤ) → HasSx is → any is_sx is ≡ true
HasSx-any is (inl h) = IsIn-any (pos 14) is h ((is_sx_iff (pos 14)).1 (inl refl))
HasSx-any is (inr h) = IsIn-any (pos 224) is h ((is_sx_iff (pos 224)).1 (inr refl))

-- The integers that a list of texts reports.
pub data IsReading (python : Python) : Values → List ℤ → Type 0 where
  no_more : IsReading python no_values []
  parsed :
      {s : String} {n : ℤ} {vs : Values} {ns : List ℤ}
      → python.parse_int (python.strip s) ≡ some n
      → IsReading python vs ns
      → IsReading python (more_values (text s) vs) (n ∷ ns)

-- What the settings say of waking the machine, by the LinkPolicy in the instance.
pub record IsWakeReport (python : Python) (instance : Instance) : Type 0 where
  pub unknown_iff :
      ((ethernet_settings python instance).wake_on_lan_capable ≡ none)
      ↔ (get_value "LinkPolicy" instance ≡ null)
  pub one_text :
      (s : String) (n : ℤ)
      → get_value "LinkPolicy" instance ≡ text s
      → python.strip s ≢ ""
      → python.parse_int (python.strip s) ≡ some n
      → ((ethernet_settings python instance).wake_on_lan_capable ≡ some true)
        ↔ ((n ≡ pos 14) ⊎ (n ≡ pos 224))
  pub listed :
      (vs : Values) (ns : List ℤ)
      → get_value "LinkPolicy" instance ≡ sequence vs
      → IsReading python vs ns
      → ((ethernet_settings python instance).wake_on_lan_capable ≡ some true) ↔ HasSx ns
  pub capable_iff :
      (policies : List ℤ)
      → (ethernet_settings python instance).link_policy ≡ some policies
      → ((ethernet_settings python instance).wake_on_lan_capable ≡ some true) ↔ HasSx policies

map_option-none {ℓ κ} :
    {A : Type ℓ} {B : Type κ} (f : A → B) (o : Option A) → map_option f o ≡ none → o ≡ none
map_option-none f none h = refl
map_option-none f (some a) h = cc

text_injective : {s t : String} → Path Value (text s) (text t) → s ≡ t
text_injective e = cc

only_one : (i n : ℤ) → IsIn i (n ∷ []) → n ≡ i
only_one i n (here e) = sym e
only_one i n (there h) = elim h [ ]

module _ (python : Python) where
  policies-none : (value : Value) → link_policy_values python value ≡ none → value ≡ null
  unfolding link_policy_values
  policies-none null h = refl
  policies-none (text s) h = absurd (none_not_some (sym h))
  policies-none (flag b) h = absurd (none_not_some (sym h))
  policies-none (number n) h = absurd (none_not_some (sym h))
  policies-none (sequence vs) h = absurd (none_not_some (sym h))
  policies-none (mapping items) h = absurd (none_not_some (sym h))
  policies-none (epr name selectors) h = absurd (none_not_some (sym h))

  policies-null : (value : Value) → value ≡ null → link_policy_values python value ≡ none
  unfolding link_policy_values
  policies-null value h = rw (h) refl

  kept_one :
      (value : Value) (n : ℤ)
      → optional_int python value ≡ some n
      → kept python (optional_int python) (value ∷ []) ≡ n ∷ []
  unfolding kept
  kept_one value n e = rw (kept, e) refl

  policies-listed :
      {vs : Values} {ns : List ℤ}
      → IsReading python vs ns
      → all_policy_values python (elements vs) ≡ ns
  unfolding all_policy_values policy_values kept elements optional_int to_str
  policies-listed no_more = refl
  policies-listed (parsed {s = s} {n = n} parses rest) =
      ap₂ (λ first is. first ++ is) (kept_one (text s) n parses) (policies-listed rest)

  policies-text :
      (s : String) (n : ℤ)
      → python.strip s ≢ ""
      → python.parse_int (python.strip s) ≡ some n
      → link_policy_values python (text s) ≡ some (n ∷ [])
  unfolding link_policy_values is_blank elements
  policies-text s n given parses = elim (Bool-cases (str_eq (python.strip s) "")) [
    | inl e ↦ absurd (given ((eq_iff (python.strip s) "").0 e))
    | inr e ↦ rw (e) (ap some (policies-listed (parsed parses no_more)))
  ]

  capable :
      (instance : Instance) (policies : List ℤ)
      → (ethernet_settings python instance).link_policy ≡ some policies
      → ((ethernet_settings python instance).wake_on_lan_capable ≡ some true) ↔ HasSx policies
  unfolding ethernet_settings
  capable instance policies e = (
    λ h. any-HasSx policies (some_injective (sym (ap (map_option (any is_sx)) e) ∙ h)),
    λ h. ap (map_option (any is_sx)) e ∙ ap some (HasSx-any policies h),
  )

  one_HasSx : (n : ℤ) → HasSx (n ∷ []) ↔ ((n ≡ pos 14) ⊎ (n ≡ pos 224))
  one_HasSx n = (
    λ h. elim h [
      | inl found ↦ inl (only_one (pos 14) n found)
      | inr found ↦ inr (only_one (pos 224) n found)
    ],
    λ h. elim h [ inl e ↦ inl (here (sym e)) | inr e ↦ inr (here (sym e)) ],
  )

  -- For every instance: wake_on_lan_capable is unknown exactly where the instance has no LinkPolicy.
  -- For a LinkPolicy of one text that is a number it is true exactly for 14 and 224, and for a list
  -- of such texts exactly where one of the numbers is 14 or 224, the two that keep the link up while
  -- the host is not in S0. For any other LinkPolicy it is true exactly where the reported policies
  -- contain one of the two.
  pub ethernet_settings-IsWakeReport : (instance : Instance) → IsWakeReport python instance
  unfolding ethernet_settings link_policy_values
  ethernet_settings-IsWakeReport instance =
      let value : Value = get_value "LinkPolicy" instance in
      let policies : Option (List ℤ) = link_policy_values python value in
      record {
        unknown_iff = (
          λ h. policies-none value (map_option-none (any is_sx) policies h),
          λ h. ap (map_option (any is_sx)) (policies-null value h),
        );
        one_text = λ s n e given parses.
            let reported = ap (link_policy_values python) e ∙ policies-text s n given parses in
            let c = capable instance (n ∷ []) reported in
            (λ h. (one_HasSx n).0 (c.0 h), λ h. c.1 ((one_HasSx n).1 h));
        listed = λ vs ns e reading.
            capable instance ns
              (ap (link_policy_values python) e ∙ ap some (policies-listed reading));
        capable_iff = capable instance;
      }

  -- A property that firmware left out or left blank.
  abbrev pub IsUnreported : Value → Type 0
  IsUnreported value = (value ≡ null) ⊎ ((s : String) × (value ≡ text s) × (python.strip s ≡ ""))

  -- `none` exactly for what is not reported, and else what `truthy` makes of it
  pub record IsKeptApart (value : Value) (read : Option Bool) : Type 0 where
    pub unreported : read ≡ none → IsUnreported value
    pub kept_unknown : IsUnreported value → read ≡ none
    pub read_as : (b : Bool) → read ≡ some b → b ≡ truthy python value

  reported :
      (value : Value)
      → ((h : IsUnreported value) → ⊥)
      → IsKeptApart value (some (truthy python value))
  reported value h = record {
    unreported = λ e. cc;
    kept_unknown = λ u. absurd (h u);
    read_as = λ b e. sym (some_injective e);
  }

  not_unreported :
      (value : Value) → value ≢ null → ((s : String) → value ≢ text s) → IsUnreported value → ⊥
  not_unreported value h k (inl e) = h e
  not_unreported value h k (inr e) = k e.0 e.1

  blank_text :
      (s t : String)
      → Path Value (text s) (text t)
      → python.strip t ≡ ""
      → str_eq (python.strip s) "" ≡ false
      → ⊥
  blank_text s t e h k =
      true_not_false
        (sym ((eq_iff (python.strip s) "").1 (ap python.strip (text_injective e) ∙ h)) ∙ k)

  -- For every value: optional_bool answers None exactly where the property is absent or blank text,
  -- and what truthy answers everywhere else, so that an absent property is never read as False.
  pub optional_bool-IsKeptApart : (value : Value) → IsKeptApart value (optional_bool python value)
  unfolding optional_bool is_blank
  optional_bool-IsKeptApart null = record {
    unreported = λ e. inl refl;
    kept_unknown = λ u. refl;
    read_as = λ b e. cc;
  }
  optional_bool-IsKeptApart (text s) = elim (Bool-cases (str_eq (python.strip s) "")) [
    | inl e ↦ rw (e) record {
      unreported = λ h. inr (s, refl, (eq_iff (python.strip s) "").0 e);
      kept_unknown = λ u. refl;
      read_as = λ b h. absurd (none_not_some h);
    }
    | inr e ↦
        rw (e) (reported (text s) (λ u. elim u [ inl h ↦ cc | inr h ↦ blank_text s h.0 h.1 h.2 e ]))
  ]
  optional_bool-IsKeptApart (flag b) =
      reported (flag b) (not_unreported (flag b) (λ e. cc) (λ s e. cc))
  optional_bool-IsKeptApart (number n) =
      reported (number n) (not_unreported (number n) (λ e. cc) (λ s e. cc))
  optional_bool-IsKeptApart (sequence vs) =
      reported (sequence vs) (not_unreported (sequence vs) (λ e. cc) (λ s e. cc))
  optional_bool-IsKeptApart (mapping items) =
      reported (mapping items) (not_unreported (mapping items) (λ e. cc) (λ s e. cc))
  optional_bool-IsKeptApart (epr name selectors) =
      reported (epr name selectors) (not_unreported (epr name selectors) (λ e. cc) (λ s e. cc))
