-- ===== src/Wsman/Request.antt =====
-- wsman.py: what is sent: resource URIs, endpoint references, selectors, parameters and envelopes.
use Prim.Native.Char.{code}
use Prim.Native.String.{◌++◌ as concat}
use ansible_collection_intel.Prelude.{
  true, false, Option, none, some, String, [], ◌∷◌, lookup, Dict, ◌==◌, if◌then◌else◌,
}
use ansible_collection_intel.Errors.{Result, ok, err, ◌>>=◌, value_error}
use ansible_collection_intel.Client.{Value, flag, null, epr, Instance}
use ansible_collection_intel.Models.{Python, to_str}
use ansible_collection_intel.Wsman.Tree.{Element, element, Elements, no_elements, more_elements}

abbrev pub ns_soap : String
ns_soap = "http://www.w3.org/2003/05/soap-envelope"

abbrev pub ns_addressing : String
ns_addressing = "http://schemas.xmlsoap.org/ws/2004/08/addressing"

abbrev pub ns_wsman : String
ns_wsman = "http://schemas.dmtf.org/wbem/wsman/1/wsman.xsd"

abbrev pub ns_enumeration : String
ns_enumeration = "http://schemas.xmlsoap.org/ws/2004/09/enumeration"

abbrev pub action_get : String
action_get = "http://schemas.xmlsoap.org/ws/2004/09/transfer/Get"

abbrev pub action_put : String
action_put = "http://schemas.xmlsoap.org/ws/2004/09/transfer/Put"

abbrev pub action_enumerate : String
action_enumerate = "http://schemas.xmlsoap.org/ws/2004/09/enumeration/Enumerate"

abbrev pub action_pull : String
action_pull = "http://schemas.xmlsoap.org/ws/2004/09/enumeration/Pull"

abbrev pub reply_to_anonymous : String
reply_to_anonymous = "http://schemas.xmlsoap.org/ws/2004/08/addressing/role/anonymous"

abbrev pub resource_uri_base : Dict String
resource_uri_base =
    ("CIM", "http://schemas.dmtf.org/wbem/wscim/1/cim-schema/2/")
    ∷ ("AMT", "http://intel.com/wbem/wscim/1/amt-schema/1/")
    ∷ ("IPS", "http://intel.com/wbem/wscim/1/ips-schema/1/")
    ∷ []

-- `class_name.split("_", 1)[0]`
unfoldable pub class_prefix : String → String
class_prefix String.[] = String.[]
class_prefix (String.◌∷◌ c s) =
    let rest = class_prefix s in if code c == b'_' then String.[] else String.◌∷◌ c rest

unfoldable pub resource_uri : String → Result String
unfolding class_prefix lookup
resource_uri class_name = elim (lookup (class_prefix class_name) resource_uri_base) [
  | none ↦ err value_error
  | some base ↦ ok (concat base class_name)
]

-- an element with text
abbrev pub leaf : String → String → String → Element
leaf namespace name content = element (some namespace) name [] (some content) no_elements

-- an element with children
abbrev pub node : String → String → Elements → Element
node namespace name children = element (some namespace) name [] none children

abbrev pub one : Element → Elements
one e = more_elements e no_elements

-- `f"{{{NS_SOAP}}}mustUnderstand"`: ElementTree keys an attribute by its namespace and name
abbrev pub must_understand_key : String
must_understand_key = concat "{" (concat ns_soap "}mustUnderstand")

-- a header that the receiver must understand
abbrev pub must_understand : String → String → String → Element
must_understand namespace name content =
    element (some namespace) name ((must_understand_key, "true") ∷ []) (some content) no_elements

-- the `Selector` elements of a mapping
unfoldable pub selector_elements : Dict String → Elements
selector_elements [] = no_elements
selector_elements ((name, value) ∷ selectors) =
    more_elements
      (element (some ns_wsman) "Selector" (("Name", name) ∷ []) (some value) no_elements)
      (selector_elements selectors)

unfoldable pub build_selector_set : Dict String → Element
unfolding selector_elements
build_selector_set selectors = node ns_wsman "SelectorSet" (selector_elements selectors)

-- `EndpointReference.build_elements`
unfoldable pub reference_elements : String → Dict String → Result Elements
unfolding resource_uri build_selector_set
reference_elements resource_class selectors = resource_uri resource_class >>= λ uri. ok (
    more_elements (leaf ns_addressing "Address" ns_addressing) (
      one (
        node ns_addressing "ReferenceParameters"
          (more_elements (leaf ns_wsman "ResourceURI" uri) (one (build_selector_set selectors))))))

unfoldable pub optional_selectors : Dict String → Elements
unfolding build_selector_set
optional_selectors [] = no_elements
optional_selectors (selector ∷ selectors) = one (build_selector_set (selector ∷ selectors))

abbrev pub optional_element : Option Element → Elements
optional_element none = no_elements
optional_element (some e) = one e

-- What one envelope says.
pub record Message : Type 0 where
  pub action : String
  pub to : String
  pub resource : String
  pub message_id : String
  pub body : Option Element
  pub selectors : Dict String

unfoldable pub build_envelope : Message → Element
unfolding optional_selectors
build_envelope message = node ns_soap "Envelope" (
    more_elements
      (node ns_soap "Header" (
        more_elements (must_understand ns_addressing "Action" message.action) (
          more_elements (must_understand ns_addressing "To" message.to) (
            more_elements (must_understand ns_wsman "ResourceURI" message.resource) (
              more_elements (must_understand ns_addressing "MessageID" message.message_id) (
                more_elements
                  (node ns_addressing "ReplyTo"
                    (one (leaf ns_addressing "Address" reply_to_anonymous)))
                  (more_elements (leaf ns_wsman "OperationTimeout" "PT60S")
                    (optional_selectors message.selectors))))))))
      (one (node ns_soap "Body" (optional_element message.body))))

abbrev pub prepend : Option Element → Elements → Elements
prepend none rest = rest
prepend (some e) rest = more_elements e rest

module _ (python : Python) where
  unfoldable pub coerce_param_text : Value → String
  unfolding to_str
  coerce_param_text (flag true) = "true"
  coerce_param_text (flag false) = "false"
  coerce_param_text value = to_str python value

  -- the element of one parameter, none for `None`
  unfoldable pub param_element : String → String → Value → Result (Option Element)
  unfolding coerce_param_text reference_elements
  param_element uri name (epr resource_class selectors) =
      reference_elements resource_class selectors >>= λ es. ok (some (node uri name es))
  param_element uri name null = ok none
  param_element uri name value = ok (some (leaf uri name (coerce_param_text value)))

  -- `_append_params`
  unfoldable pub append_params : String → Instance → Result Elements
  unfolding param_element
  append_params uri [] = ok no_elements
  append_params uri ((name, value) ∷ params) = param_element uri name value >>= λ first.
      append_params uri params >>= λ rest. ok (prepend first rest)
