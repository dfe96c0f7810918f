-- ===== src/Wsman/Operations.antt =====
-- wsman.py: `get`, `put`, `enumerate` and `invoke`. The Pull loop runs on fuel; `none` is a loop that
-- is still running when the fuel is used up.
use Prim.Native.String.{◌++◌ as concat}
use ansible_collection_intel.Prelude.{
  ℕ, zero, suc, ℤ, pos, true, false, Option, none, some, String, List, [], ◌∷◌, ◌++◌, Dict, int_eq,
  str_eq, if◌then◌else◌,
}
use ansible_collection_intel.Errors.{Result, ok, err, remote_operation}
use ansible_collection_intel.Effect.{lift, ◌>>=◌}
use ansible_collection_intel.Client.{Value, Instance}
use ansible_collection_intel.Models.{Python, get_value}
use ansible_collection_intel.Models.State.{int_of}
use ansible_collection_intel.Wsman.Tree.{
  Element, Elements, no_elements, more_elements, content_of, children_of, find_by_local_name,
  element_to_value, single_instance,
}
use ansible_collection_intel.Wsman.Request.{
  ns_enumeration, action_get, action_put, action_enumerate, action_pull, resource_uri, leaf, node,
  one, append_params,
}
use ansible_collection_intel.Wsman.Transport.{Server, Options, Wire, execute}

-- `context_el.text if context_el is not None else None`
unfoldable pub text_of : Option Element → Option String
text_of none = none
text_of (some e) = content_of e

-- `while context:`
unfoldable pub nonempty : Option String → Option String
nonempty none = none
nonempty (some s) = if str_eq s "" then none else some s

unfoldable pub enumeration_context : Element → Option String
unfolding text_of nonempty find_by_local_name
enumeration_context body = nonempty (text_of (find_by_local_name "EnumerationContext" body))

-- the context of the next Pull, none behind `EndOfSequence`
unfoldable pub next_context : Element → Option String
unfolding enumeration_context find_by_local_name
next_context response = elim (find_by_local_name "EndOfSequence" response) [
  | some mark ↦ none
  | none ↦ enumeration_context response
]

unfoldable pub pull_body : String → Element
pull_body context = node ns_enumeration "Pull" (
    more_elements (leaf ns_enumeration "EnumerationContext" context)
      (one (leaf ns_enumeration "MaxElements" "64")))

unfoldable pub or_zero : Option ℤ → ℤ
or_zero none = pos 0
or_zero (some n) = n

module _ (python : Python) where
  unfoldable pub values_of : Elements → List Value
  unfolding element_to_value
  values_of no_elements = []
  values_of (more_elements e es) = element_to_value python e ∷ values_of es

  -- the items of one Pull's answer
  unfoldable pub pulled_items : Element → List Value
  unfolding values_of find_by_local_name
  pulled_items response = elim (find_by_local_name "Items" response) [
    | none ↦ []
    | some items ↦ values_of (children_of items)
  ]

  -- `_extract_return_value`
  unfoldable pub extract_return_value : Instance → ℤ
  unfolding get_value int_of or_zero
  extract_return_value output = or_zero (int_of python (get_value "ReturnValue" output))

  module _ (server : Server) (options : Options) where
    -- `WsmanClient.get`
    unfoldable pub get : String → Dict String → Wire Instance
    unfolding resource_uri execute single_instance
    get resource_class selectors = lift (resource_uri resource_class) >>= λ uri.
        execute server options action_get uri none selectors true >>= λ body.
        lift (ok (single_instance python body))

    -- `WsmanClient.put`
    unfoldable pub put : String → Instance → Dict String → Wire Instance
    unfolding resource_uri append_params execute single_instance
    put resource_class properties selectors = lift (resource_uri resource_class) >>= λ uri.
        lift (append_params python uri properties) >>= λ params.
        execute server options action_put uri (some (node uri resource_class params)) selectors
          false
        >>= λ body. lift (ok (single_instance python body))

    -- one Pull
    unfoldable pub pull : String → String → Wire Element
    unfolding execute pull_body
    pull uri context = execute server options action_pull uri (some (pull_body context)) [] true

    -- the loop, with the items so far
    unfoldable pub pull_loop : ℕ → String → Option String → List Value → Wire (Option (List Value))
    unfolding pull pulled_items next_context
    pull_loop fuel uri none items = lift (ok (some items))
    pull_loop zero uri (some context) items = lift (ok none)
    pull_loop (suc fuel) uri (some context) items = pull uri context >>= λ response.
        pull_loop fuel uri (next_context response) (items ++ pulled_items response)

    -- `WsmanClient.enumerate`
    unfoldable pub enumerate : ℕ → String → Dict String → Wire (Option (List Value))
    unfolding resource_uri execute enumeration_context pull_loop
    enumerate fuel resource_class selectors = lift (resource_uri resource_class) >>= λ uri.
        execute server options action_enumerate uri
          (some (node ns_enumeration "Enumerate" no_elements)) selectors true
        >>= λ body. pull_loop fuel uri (enumeration_context body) []

    -- the end of `invoke`
    unfoldable pub accept : Instance → Result (Instance × ℤ)
    unfolding extract_return_value
    accept output =
        if int_eq (extract_return_value output) (pos 0)
        then ok (output, extract_return_value output)
        else err (remote_operation (extract_return_value output))

    -- `WsmanClient.invoke`
    unfoldable pub invoke : String → String → Instance → Dict String → Wire (Instance × ℤ)
    unfolding resource_uri append_params execute single_instance accept
    invoke resource_class method_name params selectors =
        lift (resource_uri resource_class) >>= λ uri.
        lift (append_params python uri params) >>= λ inputs.
        execute server options (concat uri (concat "/" method_name)) uri
          (some (node uri (concat method_name "_INPUT") inputs)) selectors false
        >>= λ body. lift (accept (single_instance python body))
