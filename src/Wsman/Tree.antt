-- ===== src/Wsman/Tree.antt =====
-- wsman.py: the elements of a document, as ElementTree gives them, and `_element_to_value`. A tag is
-- its namespace, if any, and its local name; the order is document order.

use ansible_collection_intel.Prelude.{
  Bool, false, ◌&&◌, Option, none, some, String, [], ◌∷◌, Dict, str_eq, if◌then◌else◌,
}
use ansible_collection_intel.Client.{
  Value, text, sequence, mapping, Values, no_values, more_values, Fields, no_fields, more_fields,
  Instance,
}
use ansible_collection_intel.Models.{Python}

mutual
  pub data Element : Type 0 where
    -- namespace, local name, attributes, text, children
    element : Option String → String → Dict String → Option String → Elements → Element

  pub data Elements : Type 0 where
    no_elements : Elements
    more_elements : Element → Elements → Elements

abbrev pub namespace_of : Element → Option String
namespace_of (element namespace name attributes content children) = namespace

-- `_local_name(element.tag)`
abbrev pub local_name : Element → String
local_name (element namespace name attributes content children) = name

-- `element.text`
abbrev pub content_of : Element → Option String
content_of (element namespace name attributes content children) = content

-- `list(element)`
abbrev pub children_of : Element → Elements
children_of (element namespace name attributes content children) = children

-- the first of two searches that finds one
abbrev pub or_else {ℓ} : {A : Type ℓ} → Option A → Option A → Option A
or_else none second = second
or_else (some a) second = some a

unfoldable mutual
  -- `_find_by_local_name`: the element itself comes first
  pub find_by_local_name : String → Element → Option Element
  find_by_local_name wanted (element namespace name attributes content children) =
      let inside = find_among wanted children in
      if str_eq name wanted
      then some (element namespace name attributes content children)
      else inside

  pub find_among : String → Elements → Option Element
  find_among wanted no_elements = none
  find_among wanted (more_elements e es) =
      let here = find_by_local_name wanted e in
      let after = find_among wanted es in or_else here after

-- `root.find(f"{{{namespace}}}{name}")`: a child
unfoldable pub is_qualified : String → String → Element → Bool
is_qualified namespace name (element (some space) local attributes content children) =
    str_eq space namespace && str_eq local name
is_qualified namespace name (element none local attributes content children) = false

unfoldable pub find_child : String → String → Elements → Option Element
unfolding is_qualified
find_child namespace name no_elements = none
find_child namespace name (more_elements e es) =
    let rest = find_child namespace name es in
    if is_qualified namespace name e then some e else rest

abbrev pub append_value : Values → Value → Values
append_value no_values v = more_values v no_values
append_value (more_values w vs) v = more_values w (append_value vs v)

-- a repeated name: the list of what came before, and the new value
abbrev pub repeated : Value → Value → Value
repeated (sequence vs) v = sequence (append_value vs v)
repeated w v = sequence (more_values w (more_values v no_values))

-- `result[key]` with one more value
unfoldable pub add_field : String → Value → Instance → Instance
add_field key v [] = (key, v) ∷ []
add_field key v ((name, w) ∷ fields) =
    let rest = add_field key v fields in
    if str_eq name key then (name, repeated w v) ∷ fields else (name, w) ∷ rest

abbrev pub fields_of : Instance → Fields
fields_of [] = no_fields
fields_of ((name, v) ∷ fields) = more_fields name v (fields_of fields)

abbrev pub or_empty : Option String → String
or_empty none = ""
or_empty (some s) = s

module _ (python : Python) where
  unfoldable mutual
    -- `_element_to_value`
    pub element_to_value : Element → Value
    element_to_value (element namespace name attributes content no_elements) =
        text (python.strip (or_empty content))
    element_to_value (element namespace name attributes content (more_elements e es)) =
        mapping (fields_of (collect (add_field (local_name e) (element_to_value e) []) es))

    -- the loop over the children, behind the fields so far
    pub collect : Instance → Elements → Instance
    collect result no_elements = result
    collect result (more_elements e es) =
        collect (add_field (local_name e) (element_to_value e) result) es

  -- the dictionary of an element, `{}` for one that is only text
  unfoldable pub instance_of : Element → Instance
  unfolding collect add_field
  instance_of (element namespace name attributes content no_elements) = []
  instance_of (element namespace name attributes content (more_elements e es)) =
      collect (add_field (local_name e) (element_to_value e) []) es

  -- `_single_instance`
  unfoldable pub single_instance : Element → Instance
  unfolding instance_of
  single_instance (element namespace name attributes content no_elements) = []
  single_instance (element namespace name attributes content (more_elements e es)) = instance_of e
