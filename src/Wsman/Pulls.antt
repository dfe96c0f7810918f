-- ===== src/Wsman/Pulls.antt =====
-- wsman.py, `enumerate`: the loop against the sequence of the firmware's answers.

use ansible_collection_intel.Prelude.{
  ℕ, zero, suc, ◌≢◌, ap₂, ◌∷◌, str_eq, eq_iff, Bool-cases, inl, inr, ◌≤◌, ◌≡◌, refl, ap, ◌∙◌, true,
  Option, none, some, String, List, [], ◌++◌, append_assoc, append-nil, Dict, arith,
}
use ansible_collection_intel.Errors.{ok}
use ansible_collection_intel.Client.{Value}
use ansible_collection_intel.Models.{Python}
use ansible_collection_intel.Wsman.Tree.{
  Element, Elements, no_elements, more_elements, find_by_local_name, find_among, element_to_value,
}
use ansible_collection_intel.Wsman.Request.{
  ns_soap, ns_enumeration, action_enumerate, resource_uri, node, leaf, one,
}
use ansible_collection_intel.Wsman.Transport.{Server, Options, execute}
use ansible_collection_intel.Wsman.Operations.{
  text_of, nonempty, values_of, enumeration_context, next_context, pulled_items, pull, pull_loop,
  enumerate,
}

-- The answer to an Enumerate: the context of the first Pull.
abbrev pub enumerate_answer : String → Element
enumerate_answer context = node ns_soap "Body" (
    one (
      node ns_enumeration "EnumerateResponse"
        (one (leaf ns_enumeration "EnumerationContext" context))))

abbrev pull_answer : Elements → Element
pull_answer children = node ns_soap "Body" (one (node ns_enumeration "PullResponse" children))

abbrev items_node : Elements → Element
items_node items = node ns_enumeration "Items" items

abbrev end_of_sequence : Element
end_of_sequence = node ns_enumeration "EndOfSequence" no_elements

module _ (python : Python) where
  -- The items, each as it is decoded.
  pub data AreDecoded : Elements → List Value → Type 0 where
    no_items : AreDecoded no_elements []
    item :
        {e : Element} {es : Elements} {v : Value} {vs : List Value}
        → element_to_value python e ≡ v
        → AreDecoded es vs
        → AreDecoded (more_elements e es) (v ∷ vs)

  -- The answers to a Pull, as DSP0226 lays them out, with the context for the next Pull: one that
  -- goes on, and one with the mark of the end, which may carry a context as well.
  pub data IsPullAnswer : Element → Option String → List Value → Type 0 where
    goes_on :
        (context : String) (items : Elements) (values : List Value)
        → context ≢ ""
        → find_among "EndOfSequence" items ≡ none
        → AreDecoded items values
        → IsPullAnswer
            (pull_answer (
              more_elements
                (leaf ns_enumeration "EnumerationContext" context)
                (one (items_node items))))
            (some context)
            values
    ends :
        (items : Elements) (values : List Value)
        → find_among "EndOfSequence" items ≡ none
        → AreDecoded items values
        → IsPullAnswer
            (pull_answer (more_elements (items_node items) (one end_of_sequence)))
            none
            values
    ends_with_context :
        (context : String) (items : Elements) (values : List Value)
        → find_among "EndOfSequence" items ≡ none
        → AreDecoded items values
        → IsPullAnswer
            (pull_answer (
              more_elements
                (leaf ns_enumeration "EnumerationContext" context)
                (more_elements (items_node items) (one end_of_sequence))))
            none
            values

  values_of-AreDecoded :
      {es : Elements} {vs : List Value} → AreDecoded es vs → values_of python es ≡ vs
  unfolding values_of
  values_of-AreDecoded no_items = refl
  values_of-AreDecoded (item e rest) = ap₂ (λ v vs. v ∷ vs) e (values_of-AreDecoded rest)

  nonempty_text : (s : String) → s ≢ "" → nonempty (some s) ≡ some s
  unfolding nonempty
  nonempty_text s h = elim (Bool-cases (str_eq s "")) [
    | inl e ↦ absurd (h ((eq_iff s "").0 e))
    | inr e ↦ rw (e) refl
  ]

  next_context-IsPullAnswer :
      {response : Element} {context : Option String} {values : List Value}
      → IsPullAnswer response context values
      → next_context response ≡ context
  unfolding next_context enumeration_context text_of find_by_local_name find_among
  next_context-IsPullAnswer (goes_on context items values given unmarked decoded) =
      rw (unmarked) (nonempty_text context given)
  next_context-IsPullAnswer (ends items values unmarked decoded) = rw (unmarked) refl
  next_context-IsPullAnswer (ends_with_context context items values unmarked decoded) =
      rw (unmarked) refl

  pulled_items-IsPullAnswer :
      {response : Element} {context : Option String} {values : List Value}
      → IsPullAnswer response context values
      → pulled_items python response ≡ values
  unfolding pulled_items find_by_local_name find_among
  pulled_items-IsPullAnswer (goes_on context items values given unmarked decoded) =
      values_of-AreDecoded decoded
  pulled_items-IsPullAnswer (ends items values unmarked decoded) = values_of-AreDecoded decoded
  pulled_items-IsPullAnswer (ends_with_context context items values unmarked decoded) =
      values_of-AreDecoded decoded

  enumeration_context-answer :
      (context : String)
      → context ≢ ""
      → enumeration_context (enumerate_answer context) ≡ some context
  unfolding enumeration_context text_of find_by_local_name find_among
  enumeration_context-answer context given = nonempty_text context given

module _ (python : Python) (server : Server) (options : Options) (uri : String) where
  -- The answers of `n` Pulls, each asked for with the context that the one before gave, until one
  -- gives none; the items are those of the answers in their order.
  pub data IsSequence : ℕ → Option String → List Element → List Value → List Element → Type 0 where
    finished : {n : ℕ} {posts : List Element} → IsSequence n none posts [] posts
    pulled :
        {n : ℕ} {context : String} {next : Option String} {posts after final : List Element}
        {values items : List Value} (response : Element)
        → pull python server options uri context posts ≡ (ok response, after)
        → IsPullAnswer python response next values
        → IsSequence n next after items final
        → IsSequence (suc n) (some context) posts (values ++ items) final

  pull_loop-IsSequence :
      {n : ℕ} {context : Option String} {posts : List Element} {items : List Value} (fuel : ℕ)
      (before : List Value) (final : List Element)
      → IsSequence n context posts items final
      → n ≤ fuel
      → pull_loop python server options fuel uri context before posts
        ≡ (ok (some (before ++ items)), final)
  unfolding pull_loop
  pull_loop-IsSequence fuel before final finished h = rw (append-nil before) refl
  pull_loop-IsSequence zero before final (pulled response e answer rest) h = absurd (omega arith)
  pull_loop-IsSequence (suc fuel) before final
        (pulled {after = after} {values = values} response e answer rest) h =
      rw (e) (
        ap₂ (λ c vs. pull_loop python server options fuel uri c (before ++ vs) after)
          (next_context-IsPullAnswer python answer) (pulled_items-IsPullAnswer python answer)
        ∙ pull_loop-IsSequence fuel (before ++ values) final rest (omega arith)
        ∙ ap (λ items. (ok (some items), final)) (append_assoc before values _))

module _ (python : Python) (server : Server) (options : Options) where
  -- For every server: where the resource is known, the Enumerate is answered with a context that is
  -- not empty, and the answers to the Pulls form a sequence of at most n, each asked for with the
  -- context of the one before and the last one marked as the end of the sequence, the enumeration
  -- returns the items of all answers in their order for every fuel of at least n, and has posted just
  -- these requests, so none behind the mark.
  pub enumerate-IsSequence :
      (fuel n : ℕ) (resource_class uri context : String) (selectors : Dict String)
      (posts after final : List Element) (items : List Value)
      → resource_uri resource_class ≡ ok uri
      → context ≢ ""
      → execute server options action_enumerate uri
          (some (node ns_enumeration "Enumerate" no_elements))
          selectors
          true
          posts
        ≡ (ok (enumerate_answer context), after)
      → IsSequence python server options uri n (some context) after items final
      → n ≤ fuel
      → enumerate python server options fuel resource_class selectors posts
        ≡ (ok (some items), final)
  unfolding enumerate
  enumerate-IsSequence fuel n resource_class uri context selectors posts after final items known
        given answered sequence enough =
      rw (known, answered, enumeration_context-answer python context given)
        (pull_loop-IsSequence python server options uri fuel [] final sequence enough)
