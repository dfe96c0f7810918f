-- ===== src/Power/Tests.antt =====
-- client.py, power control: runs against a firmware that is on and whose probes fail.
use ansible_collection_intel.Power.Request.{action_value}
use ansible_collection_intel.Prelude.{
  ◌≡◌, ◌≢◌, refl, pos, true, none, some, String, List, [], ◌∷◌, Bytes, str_eq, if◌then◌else◌, leb,
  length, Bool-cases, inl, inr, sym, ◌∙◌, subst, if_true, if_false, none_not_some,
}
use ansible_collection_intel.Errors.{
  Error, Result, ok, err, ok_not_raised, err_injective, connection, timeout, error_class,
}
use ansible_collection_intel.Client.{text, Instance, Call, WsmanClient}
use ansible_collection_intel.Models.Sample.{decimal_python}
use ansible_collection_intel.Models.State.{PowerState}
use ansible_collection_intel.Power.Request.{off, cycle, OperationReceipt, request_power_state}
use ansible_collection_intel.Power.Facts.{HexText, canonical_uuid}
use ansible_collection_intel.Power.Gather.{get_facts}
use ansible_collection_intel.Power.Gathering.{IsForgiving, get_facts-IsForgiving}
use ansible_collection_intel.Wsman.Transport.{Server, Options, connection_failed}
use ansible_collection_intel.Wsman.Posts.{AtMost}
use ansible_collection_intel.Wsman.Refines.{client_over, replayed}
use ansible_collection_intel.Power.Returns.{request_power_state-returns}
use ansible_collection_intel.Power.Wire.{request_power_state-AtMost}
use ansible_collection_intel.Power.Calls.{IsPowerExchange, request_power_state-IsPowerExchange}
use ansible_collection_intel.Power.Receipts.{IsReceipt, request_power_state-IsReceipt}

-- On, then without an answer to one probe, then off.
abbrev machine : WsmanClient
machine = record {
  answer_enumerate = λ calls name. ok [];
  answer_get = λ calls name.
      if leb (length calls) 1
      then ok (("PowerState", text "2") ∷ [])
      else (if leb (length calls) 2
          then err (timeout true)
          else ok (("PowerState", text "8") ∷ []));
  answer_select = λ calls name selectors. ok [];
  answer_put = λ calls name properties. ok properties;
  answer_invoke = λ calls name method params selectors. ok [];
}

abbrev is_on : PowerState
is_on = record { normalized = "on"; raw = pos 2 }

abbrev is_off : PowerState
is_off = record { normalized = "off"; raw = pos 8 }

abbrev off_receipt : OperationReceipt
off_receipt = record {
  action = "amt_power.off";
  changed = true;
  previous = is_on;
  desired = "off";
  observed_state = some is_off;
  return_value = 0;
  probe_list = is_off ∷ [];
}

machine_off : (request_power_state decimal_python machine 5 off []).0 ≡ ok off_receipt
unfolding request_power_state action_value
machine_off = refl

request_power_state-IsReceipt_example : IsReceipt 5 off off_receipt
request_power_state-IsReceipt_example =
    request_power_state-IsReceipt decimal_python machine 5 off [] off_receipt machine_off

request_power_state-IsPowerExchange_example :
    IsPowerExchange machine 5 off [] (request_power_state decimal_python machine 5 off [])
request_power_state-IsPowerExchange_example =
    request_power_state-IsPowerExchange decimal_python machine 5 off []

abbrev answer : Result Instance
answer = ok (("PowerState", text "2") ∷ [])

abbrev silence : Result Instance
silence = err connection

-- A machine that is reset and then does not answer.
abbrev lost_machine : WsmanClient
lost_machine = record {
  answer_enumerate = λ calls name. ok [];
  answer_get = λ calls name. if leb (length calls) 1 then answer else silence;
  answer_select = λ calls name selectors. ok [];
  answer_put = λ calls name properties. ok properties;
  answer_invoke = λ calls name method params selectors. ok [];
}

lost_only :
    (calls : List Call) (name : String) (e : Error)
    → lost_machine.answer_get calls name ≡ err e
    → error_class e ≢ none
unfolding error_class
lost_only calls name e h = elim (Bool-cases (leb (length calls) 1)) [
  | inl near ↦ absurd (ok_not_raised (sym (if_true (leb (length calls) 1) answer silence near) ∙ h))
  | inr far ↦
      subst (λ raised. error_class raised ≢ none)
        (err_injective (sym (if_false (leb (length calls) 1) answer silence far) ∙ h))
        (λ none_such. none_not_some (sym none_such))
]

request_power_state-returns_example :
    (request_power_state decimal_python lost_machine 5 cycle []).0 ≢ err connection
request_power_state-returns_example =
    request_power_state-returns decimal_python lost_machine lost_only 5 cycle []
      (("PowerState", text "2") ∷ []) [] refl refl connection

-- The three readings of the platform GUID that client.py discusses.
abbrev lab_guid : Bytes
lab_guid =
    221 ∷ 204 ∷ 187 ∷ 170 ∷ 255 ∷ 238 ∷ 240 ∷ 17 ∷ 136 ∷ 153 ∷ 0 ∷ 17 ∷ 34 ∷ 51 ∷ 68 ∷ 85 ∷ []

abbrev lab_hex : HexText
lab_hex = record {
  from_hex =
      λ digits. if str_eq digits "ddccbbaaffeef0118899001122334455" then some lab_guid else none;
  upper = λ s. s;
}

lab_uuid :
    canonical_uuid lab_hex "ddccbbaaffeef0118899001122334455"
    ≡ "aabbccdd-eeff-11f0-8899-001122334455"
unfolding canonical_uuid
lab_uuid = refl

get_facts-IsForgiving_example : IsForgiving (get_facts decimal_python machine lab_hex)
get_facts-IsForgiving_example = get_facts-IsForgiving machine decimal_python lab_hex

-- A network without a machine behind it.
abbrev dead_network : Server
dead_network = record { outcome = λ posts. connection_failed; fresh_id = λ posts. "uuid:1" }

abbrev two_retries : Options
two_retries = record { url = "https://amt:16993/wsman"; max_retries = 2 }

request_power_state-AtMost_example : AtMost 19 [] (
    replayed decimal_python dead_network two_retries 9 []
      (request_power_state decimal_python
        (client_over decimal_python dead_network two_retries 9)
        5
        off
        []).1)
request_power_state-AtMost_example =
    request_power_state-AtMost decimal_python dead_network two_retries 9 5 off
