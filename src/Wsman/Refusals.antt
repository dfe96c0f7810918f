-- ===== src/Wsman/Refusals.antt =====
-- wsman.py: `invoke` and its ReturnValue.
use Prim.Native.String.{◌++◌ as concat}
use ansible_collection_intel.Prelude.{
  ◌≡◌, ◌≢◌, ◌⊎◌, ℤ, pos, false, some, String, List, Dict, lookup, false,
}
use ansible_collection_intel.Errors.{Error, Result, ok, err, value_error, remote_operation}
use ansible_collection_intel.Client.{Value, Instance}
use ansible_collection_intel.Models.{Python}
use ansible_collection_intel.Wsman.Tree.{Element, Elements, single_instance}
use ansible_collection_intel.Wsman.Request.{node}
use ansible_collection_intel.Wsman.Transport.{Server, Options, execute}
use ansible_collection_intel.Wsman.Outcomes.{IsExchangeError}
use ansible_collection_intel.Wsman.ReturnValue.{IsReport}

-- What every step before the answer can raise.
abbrev IsEarly : Error → Type 0
IsEarly e = (e ≡ value_error) ⊎ IsExchangeError e

-- a result that raises nothing but ValueError
abbrev Refuses {ℓ} : {A : Type ℓ} → Result A → Type ℓ
Refuses r = (e : Error) → r ≡ err e → e ≡ value_error

module _ (python : Python) where
  module _ (server : Server) (options : Options) where
    module _ (resource_class method_name : String) (selectors : Dict String)
        (posts : List Element) where
      -- The firmware's answer to the one request of the call.
      abbrev pub IsAnswer : Element → Type 0
      IsAnswer body =
          (uri : String) × (inputs : Elements) × ((execute server options
              (concat uri (concat "/" method_name)) uri
              (some (node uri (concat method_name "_INPUT") inputs)) selectors false posts).0
            ≡ ok body)

      -- What `invoke` returns and raises, by the ReturnValue of the firmware's answer.
      pub record IsHonest (r : Result (Instance × ℤ)) : Type 0 where
        pub answered :
            (answer : Instance × ℤ)
            → r ≡ ok answer
            → (body : Element) × IsAnswer body × (answer.0 ≡ single_instance python body)
        pub returned_zero : (answer : Instance × ℤ) → r ≡ ok answer → answer.1 ≡ pos 0
        pub reported_zero :
            (answer : Instance × ℤ) (v : Value) (n : ℤ)
            → r ≡ ok answer
            → lookup "ReturnValue" answer.0 ≡ some v
            → IsReport python v n
            → n ≡ pos 0
        pub refused_by :
            (n : ℤ)
            → r ≡ err (remote_operation n)
            → (body : Element) × (v : Value) × IsAnswer body
              × (lookup "ReturnValue" (single_instance python body) ≡ some v)
              × IsReport python v n
        pub refused_not_zero : (n : ℤ) → r ≡ err (remote_operation n) → n ≢ pos 0
