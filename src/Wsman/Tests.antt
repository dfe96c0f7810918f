-- ===== src/Wsman/Tests.antt =====
-- wsman.py: runs against a server that refuses its first connection.
use ansible_collection_intel.Prelude.{
  ◌≡◌, ◌↔◌, refl, true, Option, none, some, String, [], ◌∷◌, length, ltb, ◌==◌, arith,
  if◌then◌else◌,
}
use ansible_collection_intel.Errors.{ok, err, tls_validation, timeout}
use ansible_collection_intel.Client.{text, flag, null, mapping, more_fields, no_fields, Instance}
use ansible_collection_intel.Models.Sample.{decimal_python}
use ansible_collection_intel.Wsman.Tree.{
  Element, Elements, no_elements, more_elements, add_field, element_to_value, find_among,
}
use ansible_collection_intel.Wsman.Request.{
  ns_soap, ns_enumeration, action_get, action_enumerate, action_pull, resource_uri, leaf, node, one,
  append_params, param_element, coerce_param_text,
}
use ansible_collection_intel.Wsman.Transport.{
  Server, Options, Outcome, responded, connection_failed, ssl_failed, read_timed_out,
  retries_allowed, execute, attempts, attempt_post, settle,
}
use ansible_collection_intel.Wsman.Operations.{
  enumerate, pull, pull_body, next_context, pulled_items,
}
use ansible_collection_intel.Wsman.Retries.{IsExchange, envelope_of, execute-IsExchange}
use ansible_collection_intel.Wsman.Outcomes.{execute-indeterminate_iff}
use ansible_collection_intel.Wsman.Posts.{IsThrifty, operations-IsThrifty}
use ansible_collection_intel.Wsman.Pulls.{
  AreDecoded, item, no_items, ends, finished, pulled, enumerate-IsSequence,
}
use ansible_collection_intel.Wsman.Params.{names_of, append_params-given_names}

abbrev answer_with : Elements → Element
answer_with children = node ns_soap "Envelope" (one (node ns_soap "Body" children))

abbrev responded_with : Elements → Outcome
responded_with children =
    responded record { status_code = 200; document = some (answer_with children) }

-- One item, and the end of the sequence.
abbrev last_items : Element
last_items = node ns_enumeration "PullResponse" (
    more_elements
      (node ns_enumeration "Items"
        (one (node "urn:cim" "CIM_Chip" (one (leaf "urn:cim" "Tag" " CPU ")))))
      (one (node ns_enumeration "EndOfSequence" no_elements)))

-- The first connection fails; then an Enumerate is answered with a context, and all else with items.
abbrev flaky_server : Server
flaky_server = record {
  outcome = λ posts.
      if ltb (length posts) 2
      then connection_failed
      else (if length posts == 2
          then responded_with (
              one (
                node ns_enumeration "EnumerateResponse"
                  (one (leaf ns_enumeration "EnumerationContext" "7"))))
          else responded_with (one last_items));
  fresh_id = λ posts. "uuid:1";
}

abbrev sample_options : Options
sample_options = record { url = "https://amt:16993/wsman"; max_retries = 2 }

execute-IsExchange_example :
    IsExchange flaky_server
      (envelope_of flaky_server sample_options action_get "urn:x" none [] [])
      []
      2
      (execute flaky_server sample_options action_get "urn:x" none [] true [])
unfolding retries_allowed
execute-IsExchange_example =
    execute-IsExchange flaky_server sample_options action_get "urn:x" none [] true []

abbrev silent_server : Server
silent_server = record { outcome = λ posts. read_timed_out; fresh_id = λ posts. "uuid:1" }

execute-indeterminate_example :
    ((execute silent_server sample_options action_get "urn:x" none [] true []).0
      ≡ err (timeout true))
    ↔ (Path Outcome read_timed_out read_timed_out)
execute-indeterminate_example =
    execute-indeterminate_iff silent_server sample_options action_get "urn:x" none [] true []

abbrev untrusted_server : Server
untrusted_server = record { outcome = λ posts. ssl_failed; fresh_id = λ posts. "uuid:1" }

untrusted :
    (execute untrusted_server sample_options action_get "urn:x" none [] true []).0
    ≡ err tls_validation
unfolding execute attempts attempt_post settle retries_allowed
untrusted = refl

operations-IsThrifty_example : IsThrifty flaky_server sample_options decimal_python 3
operations-IsThrifty_example = operations-IsThrifty flaky_server sample_options decimal_python 3

abbrev chip_uri : String
chip_uri = "http://schemas.dmtf.org/wbem/wscim/1/cim-schema/2/CIM_Chip"

abbrev enumerate_body : Option Element
enumerate_body = some (node ns_enumeration "Enumerate" no_elements)

abbrev chip_envelope : Element
chip_envelope =
    envelope_of flaky_server sample_options action_enumerate chip_uri enumerate_body [] []

abbrev pull_envelope : Element
pull_envelope =
    envelope_of flaky_server sample_options action_pull chip_uri (some (pull_body "7")) []
      (chip_envelope ∷ chip_envelope ∷ [])

chips_decoded :
    AreDecoded decimal_python
      (one (node "urn:cim" "CIM_Chip" (one (leaf "urn:cim" "Tag" " CPU "))))
      (mapping (more_fields "Tag" (text " CPU ") no_fields) ∷ [])
unfolding element_to_value add_field
chips_decoded = item refl no_items

enumerate-IsSequence_example :
    enumerate decimal_python flaky_server sample_options 5 "CIM_Chip" [] [] ≡ (
      ok (some (mapping (more_fields "Tag" (text " CPU ") no_fields) ∷ [])),
      chip_envelope ∷ chip_envelope ∷ pull_envelope ∷ [],
    )
unfolding execute resource_uri pull next_context pulled_items add_field find_among
enumerate-IsSequence_example =
    enumerate-IsSequence decimal_python flaky_server sample_options 5 1 "CIM_Chip" chip_uri "7" []
      [] (chip_envelope ∷ chip_envelope ∷ []) (chip_envelope ∷ chip_envelope ∷ pull_envelope ∷ [])
      (mapping (more_fields "Tag" (text " CPU ") no_fields) ∷ []) refl (λ e. cc) refl
      (pulled (node ns_soap "Body" (one last_items)) refl (ends _ _ refl chips_decoded) finished)
      (omega arith)

abbrev boot_params : Instance
boot_params = ("Source", null) ∷ ("Locked", flag true) ∷ []

boot_params_sent :
    append_params decimal_python "urn:x" boot_params ≡ ok (one (leaf "urn:x" "Locked" "true"))
unfolding append_params param_element coerce_param_text
boot_params_sent = refl

append_params-given_names_example :
    names_of decimal_python (one (leaf "urn:x" "Locked" "true")) ≡ "Locked" ∷ []
append_params-given_names_example =
    append_params-given_names decimal_python "urn:x" boot_params
      (one (leaf "urn:x" "Locked" "true")) boot_params_sent
