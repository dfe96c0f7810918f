-- ===== src/Client.antt =====
-- The WS-Man client as boot.py calls it: an interface whose answers are a parameter, since the
-- firmware behind it is. An answer may depend on every call made before. A program against it is
-- an action on the history of calls.
pub mod Made
use ansible_collection_intel.Prelude.{ℤ, Bool, String, List, [], ◌∷◌, ◌++◌, Dict}
pub use ansible_collection_intel.Effect.{
  resume, ◌>>=◌, ◌>>◌, lift, attempt, resume_rule, resume_ok, step_rule,
}
use ansible_collection_intel.Effect.{Effect}
use ansible_collection_intel.Errors.{Result}

-- A value of a decoded instance or of a method's parameters; `epr` is an EndpointReference.
mutual
  pub data Value : Type 0 where
    text : String → Value
    flag : Bool → Value
    number : ℤ → Value
    null : Value
    sequence : Values → Value
    mapping : Fields → Value
    epr : String → Dict String → Value

  -- The elements of a list.
  pub data Values : Type 0 where
    no_values : Values
    more_values : Value → Values → Values

  -- The items of a nested dictionary.
  pub data Fields : Type 0 where
    no_fields : Fields
    more_fields : String → Value → Fields → Fields

abbrev pub Instance : Type 0
Instance = Dict Value

pub data Call : Type 0 where
  enumerated got : String → Call
  -- `get` with selectors
  selected : String → Dict String → Call
  put_instance : String → Instance → Call
  -- class, method, parameters, selectors
  invoked : String → String → Instance → Dict String → Call

pub record WsmanClient : Type 0 where
  pub answer_enumerate : List Call → String → Result (List Instance)
  pub answer_get : List Call → String → Result Instance
  pub answer_select : List Call → String → Dict String → Result Instance
  pub answer_put : List Call → String → Instance → Result Instance
  -- a non-zero ReturnValue is the error `remote_operation`
  pub answer_invoke : List Call → String → String → Instance → Dict String → Result Instance

-- An action works on the calls made so far.
abbrev pub Action {ℓ} : Type ℓ → Type ℓ
Action A = Effect (List Call) A

unfoldable pub enumerate : WsmanClient → String → Action (List Instance)
enumerate client name calls = (client.answer_enumerate calls name, calls ++ enumerated name ∷ [])

unfoldable pub get : WsmanClient → String → Action Instance
get client name calls = (client.answer_get calls name, calls ++ got name ∷ [])

unfoldable pub select : WsmanClient → String → Dict String → Action Instance
select client name selectors calls =
    (client.answer_select calls name selectors, calls ++ selected name selectors ∷ [])

unfoldable pub put : WsmanClient → String → Instance → Action Instance
put client name properties calls =
    (client.answer_put calls name properties, calls ++ put_instance name properties ∷ [])

unfoldable pub invoke : WsmanClient → String → String → Instance → Dict String → Action Instance
invoke client name method params selectors calls = (
  client.answer_invoke calls name method params selectors,
  calls ++ invoked name method params selectors ∷ [],
)
