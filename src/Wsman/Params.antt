-- ===== src/Wsman/Params.antt =====
-- wsman.py: which parameters `_append_params` sends.

use ansible_collection_intel.Prelude.{◌≡◌, refl, sym, ap, ◌∙◌, Option, String, List, [], ◌∷◌}
use ansible_collection_intel.Errors.{Result, ok, err, ◌>>=◌, ok_injective, raised_not_ok}
use ansible_collection_intel.Client.{
  Value, text, flag, number, null, sequence, mapping, epr, Instance,
}
use ansible_collection_intel.Models.{Python}
use ansible_collection_intel.Wsman.Tree.{Element, Elements, no_elements, more_elements, local_name}
use ansible_collection_intel.Wsman.Request.{
  reference_elements, param_element, prepend, append_params,
}

module _ (python : Python) where
  -- The names of the elements, in their order.
  abbrev pub names_of : Elements → List String
  names_of no_elements = []
  names_of (more_elements e es) = local_name e ∷ names_of es

  -- The names of the parameters that are not `None`.
  abbrev pub given_names : Instance → List String
  given_names [] = []
  given_names ((name, null) ∷ params) = given_names params
  given_names ((name, value) ∷ params) = name ∷ given_names params

  -- what a value adds in front of the other names
  abbrev first_name : String → Value → List String → List String
  first_name name null rest = rest
  first_name name value rest = name ∷ rest

  given_names-cons :
      (name : String) (value : Value) (params : Instance)
      → given_names ((name, value) ∷ params) ≡ first_name name value (given_names params)
  given_names-cons name null params = refl
  given_names-cons name (text s) params = refl
  given_names-cons name (flag b) params = refl
  given_names-cons name (number n) params = refl
  given_names-cons name (sequence vs) params = refl
  given_names-cons name (mapping items) params = refl
  given_names-cons name (epr resource_class selectors) params = refl

  -- A returned element carries the parameter's name.
  IsNamed : String → Value → Option Element → Type 0
  IsNamed name value first =
      (rest : Elements) → names_of (prepend first rest) ≡ first_name name value (names_of rest)

  bind_ok {ℓ κ μ} :
      {A : Type ℓ} {B : Type κ} {P : Type μ} (r : Result A) (f : A → Result B) (b : B)
      → (r >>= f) ≡ ok b
      → ((a : A) → r ≡ ok a → f a ≡ ok b → P)
      → P
  bind_ok (ok a) f b h k = k a refl h
  bind_ok (err e) f b h k = absurd (raised_not_ok h)

  param_element-IsNamed :
      (uri name : String) (value : Value) (first : Option Element)
      → param_element python uri name value ≡ ok first
      → IsNamed name value first
  unfolding param_element IsNamed
  param_element-IsNamed uri name (epr resource_class selectors) first h rest =
      bind_ok (reference_elements resource_class selectors) _ first h
        (λ es eq named. ap (λ o. names_of (prepend o rest)) (sym (ok_injective named)))
  param_element-IsNamed uri name null first h rest =
      ap (λ o. names_of (prepend o rest)) (sym (ok_injective h))
  param_element-IsNamed uri name (text s) first h rest =
      ap (λ o. names_of (prepend o rest)) (sym (ok_injective h))
  param_element-IsNamed uri name (flag b) first h rest =
      ap (λ o. names_of (prepend o rest)) (sym (ok_injective h))
  param_element-IsNamed uri name (number n) first h rest =
      ap (λ o. names_of (prepend o rest)) (sym (ok_injective h))
  param_element-IsNamed uri name (sequence vs) first h rest =
      ap (λ o. names_of (prepend o rest)) (sym (ok_injective h))
  param_element-IsNamed uri name (mapping items) first h rest =
      ap (λ o. names_of (prepend o rest)) (sym (ok_injective h))

  prepend-named :
      (uri name : String) (value : Value) (first : Option Element) (rest : Elements)
      → param_element python uri name value ≡ ok first
      → names_of (prepend first rest) ≡ first_name name value (names_of rest)
  unfolding IsNamed
  prepend-named uri name value first rest h = param_element-IsNamed uri name value first h rest

  -- For every parameter dictionary: where the parameters can be written, the elements sent carry the
  -- names of the parameters that are not None, in the dictionary's order; a None sends no element.
  pub append_params-given_names :
      (uri : String) (params : Instance) (sent : Elements)
      → append_params python uri params ≡ ok sent
      → names_of sent ≡ given_names params
  unfolding append_params
  append_params-given_names uri [] sent h = ap names_of (sym (ok_injective h))
  append_params-given_names uri ((name, value) ∷ params) sent h =
      bind_ok (param_element python uri name value) _ sent h (λ first eq more.
        bind_ok (append_params python uri params) _ sent more (λ rest eqs last.
          ap names_of (sym (ok_injective last))
          ∙ prepend-named uri name value first rest eq
          ∙ ap (first_name name value) (append_params-given_names uri params rest eqs)
          ∙ sym (given_names-cons name value params)))
