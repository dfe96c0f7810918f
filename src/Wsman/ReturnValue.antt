-- ===== src/Wsman/ReturnValue.antt =====
-- wsman.py: the ReturnValue of an answer, described apart from `_extract_return_value`.

use ansible_collection_intel.Prelude.{
  ◌≡◌, refl, ◌≢◌, inl, inr, sym, ap, ◌∙◌, subst, ℤ, pos, true, false, none, some, String, lookup,
  some_injective, none_not_some, Option, false, Option-cases,
}
use ansible_collection_intel.Client.{
  Value, text, flag, number, null, sequence, mapping, epr, Instance,
}
use ansible_collection_intel.Models.{Python, get_value}
use ansible_collection_intel.Models.State.{int_of}
use ansible_collection_intel.Wsman.Operations.{or_zero, extract_return_value}

-- The number that a ReturnValue is, as Python's `int` reads it.
pub data IsReport (python : Python) : Value → ℤ → Type 0 where
  of_text : {s : String} {n : ℤ} → python.parse_int s ≡ some n → IsReport python (text s) n
  of_number : {n : ℤ} → IsReport python (number n) n
  of_false : IsReport python (flag false) (pos 0)
  of_true : IsReport python (flag true) (pos 1)

value_missing :
    (name : String) (output : Instance) → lookup name output ≡ none → get_value name output ≡ null
unfolding get_value
value_missing name output n = rw (get_value, n) refl

value_present :
    (name : String) (output : Instance) (v : Value)
    → lookup name output ≡ some v
    → get_value name output ≡ v
unfolding get_value
value_present name output v e = rw (get_value, e) refl

module _ (python : Python) where
  int_of-IsReport : (v : Value) (n : ℤ) → int_of python v ≡ some n → IsReport python v n
  unfolding int_of
  int_of-IsReport (text s) n e = of_text e
  int_of-IsReport (number m) n e = subst (IsReport python (number m)) (some_injective e) of_number
  int_of-IsReport (flag true) n e = subst (IsReport python (flag true)) (some_injective e) of_true
  int_of-IsReport (flag false) n e =
      subst (IsReport python (flag false)) (some_injective e) of_false
  int_of-IsReport null n e = absurd (none_not_some e)
  int_of-IsReport (sequence vs) n e = absurd (none_not_some e)
  int_of-IsReport (mapping items) n e = absurd (none_not_some e)
  int_of-IsReport (epr name selectors) n e = absurd (none_not_some e)

  IsReport-int_of : {v : Value} {n : ℤ} → IsReport python v n → int_of python v ≡ some n
  unfolding int_of
  IsReport-int_of (of_text e) = e
  IsReport-int_of of_number = refl
  IsReport-int_of of_false = refl
  IsReport-int_of of_true = refl

  or_zero-some : (o : Option ℤ) → or_zero o ≢ pos 0 → o ≡ some (or_zero o)
  unfolding or_zero
  or_zero-some none h = absurd (h refl)
  or_zero-some (some n) h = refl

  pub reported :
      (output : Instance)
      → extract_return_value python output ≢ pos 0
      → (v : Value) × (lookup "ReturnValue" output ≡ some v)
        × IsReport python v (extract_return_value python output)
  unfolding extract_return_value get_value
  reported output h = elim (Option-cases (lookup "ReturnValue" output)) [
    | inl n ↦
        absurd (h (ap (λ v. or_zero (int_of python v)) (value_missing "ReturnValue" output n)))
    | inr found ↦ (
      found.0,
      found.1,
      int_of-IsReport found.0 (extract_return_value python output) (
          sym (ap (int_of python) (value_present "ReturnValue" output found.0 found.1))
          ∙ or_zero-some _ h),
    )
  ]

  -- a value that is reported is the one extracted
  pub extracted :
      (output : Instance) (v : Value) (n : ℤ)
      → lookup "ReturnValue" output ≡ some v
      → IsReport python v n
      → extract_return_value python output ≡ n
  unfolding extract_return_value
  extracted output v n e h =
      ap (λ w. or_zero (int_of python w)) (value_present "ReturnValue" output v e)
      ∙ ap or_zero (IsReport-int_of h)
