-- ===== src/Update/Properties/Contexts.antt =====
-- When the properties of an entity pass the check against the context of its type.
use exobrain.Prelude.{String, ◌≡◌, true, some, List, All}
use exobrain.Prelude.Dict
use exobrain.Prelude.Json.{Json, as_list}
use exobrain.Update.Properties.Writable.{IsLastWritable}
use exobrain.Update.Properties.Required.{IsComplete}
use exobrain.Update.Properties.{
  JsonDict, extract_property_value_field, is_value_type_compatible, non_empty_text,
}

module _ {F : Type 0} where
  -- The property names a key, the last writable property of the context with this key has a value
  -- type, and the property sets exactly one value field, one
  -- that its value type is compatible with.
  pub record IsAllowed (cps : List (Json F)) (p : JsonDict F) : Type 0 where
    pub key : String
    pub context : JsonDict F
    pub field : String
    pub value_type : String
    pub named : non_empty_text (Dict.get p "key") ≡ some key
    pub last : IsLastWritable cps key context
    pub set : extract_property_value_field p ≡ some field
    pub typed : non_empty_text (Dict.get context "value_type") ≡ some value_type
    pub compatible : is_value_type_compatible value_type field ≡ true

module _ {F : Type 0} where
  -- What the check asks of the properties of an entity.
  pub record IsValid (properties : List (JsonDict F)) (type_context : JsonDict F) : Type 0 where
    pub context_properties : List (Json F)
    pub listed : as_list (Dict.get type_context "properties") ≡ some context_properties
    pub allowed : All (IsAllowed context_properties) properties
    pub complete : IsComplete properties context_properties
