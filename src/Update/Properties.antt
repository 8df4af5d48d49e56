-- ===== src/Update/Properties.antt =====
-- Properties of graph nodes and edges in core.py: how values become properties, and how those are
-- checked against the context of their type.
pub mod Writable
pub mod Required
pub mod Values
pub mod Contexts
use exobrain.Prelude.{
  ℕ, ◌+◌, String, Bool, true, false, not, Option, none, some, List, [], ◌∷◌, ◌++◌, ◌==◌, filter_by,
  any_of, if◌then◌else◌,
}
use exobrain.Prelude.Dict
use exobrain.Prelude.Json.{
  Json, null, bool, int, float, text, array, object, entries, items, as_list,
}
use exobrain.Prelude.Text.{codes, contains, strip, lower, one_of}

abbrev pub JsonDict : Type 0 → Type 0
JsonDict F = List (String × Json F)

-- _PROPERTY_VALUE_FIELDS
abbrev pub property_value_fields : List String
property_value_fields =
    "bool_value" ∷ "int_value" ∷ "float_value" ∷ "string_value" ∷ "datetime_value" ∷ "json_value"
    ∷ []

abbrev the_only : List String → Option String
the_only (f ∷ []) = some f
the_only _ = none

unfoldable pub is_value_type_compatible : String → String → Bool
unfolding strip lower one_of contains
is_value_type_compatible expected_value_type provided_field =
    let value_type = lower (strip (codes expected_value_type)) in
    if one_of value_type ("bool" ∷ "boolean" ∷ [])
    then contains ("bool_value" ∷ []) provided_field
    else if one_of value_type ("int" ∷ "integer" ∷ [])
    then contains ("int_value" ∷ []) provided_field
    else if one_of value_type ("float" ∷ "double" ∷ "number" ∷ [])
    then contains ("float_value" ∷ "int_value" ∷ []) provided_field
    else if one_of value_type ("string" ∷ [])
    then contains ("string_value" ∷ []) provided_field
    else if one_of value_type ("datetime" ∷ "timestamp" ∷ "date" ∷ [])
    then contains ("datetime_value" ∷ []) provided_field
    else if one_of value_type ("json" ∷ "object" ∷ "array" ∷ [])
    then contains ("json_value" ∷ []) provided_field
    else false

-- An issue, with the values that its text shows; the text sorts the missing keys.
pub data Issue : Type 0 where
  no_context : String → Issue
  invalid_key : ℕ → Issue
  not_writable not_one_value no_value_type : String → Issue
  wrong_type : String → String → String → Issue
  missing_required : List String → Issue

abbrev type_issue : String → String → Option String → Option Issue
type_issue key provided_field none = some (no_value_type key)
type_issue key provided_field (some expected_value_type) =
    if is_value_type_compatible expected_value_type provided_field
    then none
    else some (wrong_type key expected_value_type provided_field)

abbrev with_issue : Option Issue → List Issue → List Issue
with_issue none issues = issues
with_issue (some issue) issues = issue ∷ issues

abbrev provide : Option String → List String → List String
provide none provided = provided
provide (some key) provided = key ∷ provided

abbrev missing_keys : List String → List String → List String
missing_keys required provided = filter_by (λ key. not (contains provided key)) required

abbrev missing_issues : List String → List Issue
missing_issues [] = []
missing_issues (key ∷ missing) = missing_required (key ∷ missing) ∷ []

module _ {F : Type 0} where
  unfoldable pub extract_property_value_field : JsonDict F → Option String
  extract_property_value_field property_payload =
      the_only (filter_by (λ f. Dict.has property_payload f) property_value_fields)

  abbrev pub property : String → String → Json F → JsonDict F
  property key name value = ("key", text key) ∷ (name, value) ∷ []

  unfoldable pub to_property_value_dict : (Json F → String) → String → Json F → Option (JsonDict F)
  to_property_value_dict json_dumps key (bool b) = some (property key "bool_value" (bool b))
  to_property_value_dict json_dumps key (int n) = some (property key "int_value" (int n))
  to_property_value_dict json_dumps key (float x) = some (property key "float_value" (float x))
  to_property_value_dict json_dumps key (text s) = some (property key "string_value" (text s))
  to_property_value_dict json_dumps key (array xs) =
      some (property key "json_value" (text (json_dumps (array xs))))
  to_property_value_dict json_dumps key (object d) =
      some (property key "json_value" (text (json_dumps (object d))))
  to_property_value_dict json_dumps key null = none

  -- `isinstance(key, str) and key`
  abbrev pub non_empty_text : Option (Json F) → Option String
  non_empty_text (some (text s)) = if s == "" then none else some s
  non_empty_text _ = none

  -- `value is True`
  abbrev pub is_true : Option (Json F) → Bool
  is_true (some (bool b)) = b
  is_true _ = false

  -- The writable properties of a context by their keys, from those that were collected before.
  abbrev collect :
      List (String × JsonDict F) → Option String → JsonDict F → List (String × JsonDict F)
  collect writable_context_by_key none context_property = writable_context_by_key
  collect writable_context_by_key (some key) context_property =
      if is_true (Dict.get context_property "writable")
      then Dict.put writable_context_by_key key context_property
      else writable_context_by_key

  pub writable_contexts : List (String × JsonDict F) → List (Json F) → List (String × JsonDict F)
  writable_contexts writable_context_by_key [] = writable_context_by_key
  writable_contexts writable_context_by_key (object d ∷ context_properties) =
      writable_contexts
        (collect writable_context_by_key (non_empty_text (Dict.get (entries d) "prop_name"))
          (entries d))
        context_properties
  writable_contexts writable_context_by_key (_ ∷ context_properties) =
      writable_contexts writable_context_by_key context_properties

  abbrev require : Option String → JsonDict F → List String → List String
  require none context_property required = required
  require (some key) context_property required =
      if not (is_true (Dict.get context_property "writable"))
      then required
      else if not (is_true (Dict.get context_property "required"))
      then required
      else key ∷ required

  -- The keys that are required and writable. A key that is there twice is in the set once.
  pub required_keys : List (Json F) → List String
  required_keys [] = []
  required_keys (object d ∷ context_properties) =
      require (non_empty_text (Dict.get (entries d) "prop_name")) (entries d)
        (required_keys context_properties)
  required_keys (_ ∷ context_properties) = required_keys context_properties

  abbrev field_issue : String → JsonDict F → Option String → Option Issue
  field_issue key context_property none = some (not_one_value key)
  field_issue key context_property (some provided_field) =
      type_issue key provided_field (non_empty_text (Dict.get context_property "value_type"))

  abbrev context_issue : String → JsonDict F → Option (JsonDict F) → Option Issue
  context_issue key property_payload none = some (not_writable key)
  context_issue key property_payload (some context_property) =
      field_issue key context_property (extract_property_value_field property_payload)

  abbrev key_issue : List (String × JsonDict F) → ℕ → JsonDict F → Option String → Option Issue
  key_issue writable_context_by_key index property_payload none = some (invalid_key index)
  key_issue writable_context_by_key index property_payload (some key) =
      context_issue key property_payload (Dict.get writable_context_by_key key)

  -- What the loop's body appends for one property.
  unfoldable pub property_issue : List (String × JsonDict F) → ℕ → JsonDict F → Option Issue
  unfolding extract_property_value_field is_value_type_compatible
  property_issue writable_context_by_key index property_payload =
      key_issue writable_context_by_key index property_payload
        (non_empty_text (Dict.get property_payload "key"))

  -- The loop over the properties, from position `index` on.
  pub property_issues : List (String × JsonDict F) → ℕ → List (JsonDict F) → List Issue
  property_issues writable_context_by_key index [] = []
  property_issues writable_context_by_key index (property_payload ∷ properties) =
      with_issue (property_issue writable_context_by_key index property_payload)
        (property_issues writable_context_by_key (index + 1) properties)

  pub provided_keys : List (JsonDict F) → List String
  provided_keys [] = []
  provided_keys (property_payload ∷ properties) =
      provide (non_empty_text (Dict.get property_payload "key")) (provided_keys properties)

  abbrev validate_with : String → List (JsonDict F) → Option (List (Json F)) → List Issue
  validate_with type_id properties none = no_context type_id ∷ []
  validate_with type_id properties (some context_properties) =
      property_issues (writable_contexts [] context_properties) 0 properties
      ++ missing_issues (missing_keys (required_keys context_properties) (provided_keys properties))

  pub validate_entity_payload_against_property_context :
      String → List (JsonDict F) → JsonDict F → List Issue
  validate_entity_payload_against_property_context type_id properties type_context =
      validate_with type_id properties (as_list (Dict.get type_context "properties"))
