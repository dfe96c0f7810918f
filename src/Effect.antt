-- ===== src/Effect.antt =====
-- Code that raises and that changes a state: a function from the state before to a result and the
-- state after, which is kept when it raises.
use ansible_collection_intel.Prelude.{◌≡◌, refl, Option}
use ansible_collection_intel.Errors.{Error, Result, ok, err, handled}

abbrev pub Effect {κ ℓ} : Type κ → Type ℓ → Type (κ ⊔ ℓ)
Effect S A = S → Result A × S

module _ {σ} {S : Type σ} where
  -- The rest of the code, after a step that returned or raised.
  abbrev pub resume {ℓ κ} :
      {A : Type ℓ} {B : Type κ} → Result A → S → (A → Effect S B) → Result B × S
  resume (ok a) s f = f a s
  resume (err e) s f = (err e, s)

  infixl 5 ◌>>=◌ ◌>>◌
  abbrev pub ◌>>=◌ {ℓ κ} : {A : Type ℓ} {B : Type κ} → Effect S A → (A → Effect S B) → Effect S B
  (m >>= f) s = let (r, after) = m s in resume r after f

  abbrev pub ◌>>◌ {ℓ κ} : {A : Type ℓ} {B : Type κ} → Effect S A → Effect S B → Effect S B
  m >> k = m >>= λ _. k

  abbrev pub attempt {ℓ} : {A : Type ℓ} → (Error → Option A) → Effect S A → Effect S A
  attempt handler m s = let (r, after) = m s in (handled handler r, after)

  -- A result that leaves the state alone.
  abbrev pub lift {ℓ} : {A : Type ℓ} → Result A → Effect S A
  lift r s = (r, s)

  -- What holds after both ends of a step holds after the step and its continuation.
  pub resume_rule {ℓ κ μ} :
      {A : Type ℓ} {B : Type κ} (Q : Result B × S → Type μ) (r : Result A) (s : S)
      (f : A → Effect S B)
      → ((e : Error) → r ≡ err e → Q (err e, s))
      → ((a : A) → r ≡ ok a → Q (f a s))
      → Q (resume r s f)
  resume_rule Q (ok a) s f threw went = went a refl
  resume_rule Q (err e) s f threw went = threw e refl

  -- From code that returned: what its first step returned, and the rest.
  pub resume_ok {ℓ κ μ} :
      {A : Type ℓ} {B : Type κ} {P : Type μ} (r : Result A) (s : S) (f : A → Effect S B) (b : B)
      → (resume r s f).0 ≡ ok b
      → ((a : A) → r ≡ ok a → (f a s).0 ≡ ok b → P)
      → P
  resume_ok (ok a) s f b h k = k a refl h
  resume_ok (err e) s f b h k = cc

  -- The rule, of a step as it is written.
  pub step_rule {ℓ κ μ} :
      {A : Type ℓ} {B : Type κ} (Q : Result B × S → Type μ) (m : Effect S A) (before : S)
      (f : A → Effect S B)
      → ((e : Error) → (m before).0 ≡ err e → Q (err e, (m before).1))
      → ((a : A) → (m before).0 ≡ ok a → Q (f a (m before).1))
      → Q ((m >>= f) before)
  step_rule Q m before f = resume_rule Q (m before).0 (m before).1 f
