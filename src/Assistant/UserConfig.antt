-- ===== src/Assistant/UserConfig.antt =====
-- UserConfigService of user_config_service.py: the settings of a user, which are the defaults of
-- their definitions and the overrides that are stored for the user.
pub mod Rows
pub mod Service
pub mod Agreement
pub mod Reading
pub mod Writing
pub mod Refreshing
pub mod Accepting
pub mod Updating
use exobrain.Prelude.{
  ℕ, String, Bool, true, false, not, Option, none, some, List, [], ◌∷◌, ◌++◌, ◌==◌, map, any_of,
  if◌then◌else◌,
}
use exobrain.Prelude.Dict
use exobrain.Prelude.Json.{Json, text, bool, object, dict, as_text, entries}
use exobrain.Prelude.Text.{codes, lower, same_codes}
use exobrain.Assistant.Calls.{Answer, Call, returned, failed, return, raise}

pub data ConfigError : Type 0 where
  unknown_config invalid_value : String → ConfigError

-- bool | str
pub data Value : Type 0 where
  flag : Bool → Value
  word : String → Value

pub data ConfigType : Type 0 where
  boolean choice : ConfigType

-- The value has the type that the setting declares.
abbrev pub HasType : ConfigType → Value → Type 0
HasType boolean (flag b) = Unit
HasType boolean (word s) = ⊥
HasType choice (flag b) = ⊥
HasType choice (word s) = Unit

pub record ChoiceOption : Type 0 where
  pub value : String
  pub label : String

pub record ConfigDefinition : Type 0 where
  pub id : String
  pub key : String
  pub name : String
  pub config_type : ConfigType
  pub description : String
  pub default_value : Value
  pub options : List ChoiceOption

pub record ConfigItem : Type 0 where
  pub key : String
  pub name : String
  pub config_type : ConfigType
  pub description : String
  pub options : List ChoiceOption
  pub value : Value
  pub default_value : Value
  pub using_default : Bool

abbrev pub Outcome : Type 0 → Type 0
Outcome A = Answer ConfigError A

module _ {A B : Type 0} where
  abbrev pub then_do : (A → Outcome B) → Outcome A → Outcome B
  then_do f (returned a) = f a
  then_do f (failed e) = failed e

-- str(value)
abbrev pub str_of : Value → String
str_of (flag true) = "True"
str_of (flag false) = "False"
str_of (word s) = s

abbrev pub same_value : Value → Value → Bool
same_value (flag true) (flag b) = b
same_value (flag false) (flag b) = not b
same_value (word s) (word t) = s == t
same_value (flag a) (word t) = false
same_value (word s) (flag b) = false

abbrev kind_of : ConfigType → String
kind_of boolean = "boolean"
kind_of choice = "choice"

-- The dictionary of the options of a setting: options_by_key.get(key, [])
abbrev pub or_no_options : Option (List ChoiceOption) → List ChoiceOption
or_no_options none = []
or_no_options (some options) = options

-- The text that str.lower gives, compared with the two names of Booleans.
abbrev coerce_text : String → String → Outcome Bool
coerce_text key s =
    let lowered = lower (codes s) in
    if same_codes lowered (codes "true")
    then returned true
    else if same_codes lowered (codes "false")
    then returned false
    else failed (invalid_value key)

abbrev pub coerce_value : String → Value → Outcome Bool
coerce_value key (flag b) = returned b
coerce_value key (word s) = coerce_text key s

abbrev choice_value : String → Option String → Outcome Value
choice_value key (some s) = returned (word s)
choice_value key none = failed (invalid_value key)

abbrev has_kind : Option String → String → Bool
has_kind none kind = false
has_kind (some s) kind = s == kind

module _ {F : Type 0} where
  abbrev json_of : Value → Json F
  json_of (flag b) = bool b
  json_of (word s) = text s

  -- _serialize_value, as the document that the column holds then
  unfoldable pub serialize_value : ConfigType → Value → Json F
  serialize_value config_type value =
      dict (("kind", text (kind_of config_type)) ∷ ("value", json_of value) ∷ [])

  -- _coerce_boolean, of a decoded value
  abbrev coerce_boolean : String → Option (Json F) → Outcome Bool
  coerce_boolean key (some (bool b)) = returned b
  coerce_boolean key (some (text s)) = coerce_text key s
  coerce_boolean key _ = failed (invalid_value key)

  abbrev deserialize_fields : String → List (String × Json F) → Outcome Value
  deserialize_fields key raw =
      let raw_kind = as_text (Dict.get raw "kind") in
      let raw_value = Dict.get raw "value" in
      if has_kind raw_kind "boolean"
      then then_do (λ b. returned (flag b)) (coerce_boolean key raw_value)
      else if has_kind raw_kind "choice"
      then choice_value key (as_text raw_value)
      else failed (invalid_value key)

  -- _deserialize_stored_value, of the decoded column; `none` is a text that is no JSON.
  unfoldable pub deserialize_stored_value : String → Option (Json F) → Outcome Value
  deserialize_stored_value key (some (object d)) = deserialize_fields key (entries d)
  deserialize_stored_value key _ = failed (invalid_value key)
