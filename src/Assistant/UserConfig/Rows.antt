-- ===== src/Assistant/UserConfig/Rows.antt =====
-- _load_definitions of user_config_service.py: the rows of definitions and their active options, as
-- definitions.
pub mod Steps
pub mod Typed
use exobrain.Prelude.{
  String, Bool, true, false, Option, none, some, List, [], ◌∷◌, ◌++◌, ◌==◌, map, if◌then◌else◌,
}
use exobrain.Prelude.Dict
use exobrain.Prelude.Json.{Json}
use exobrain.Assistant.Calls.{returned, failed}
use exobrain.Assistant.UserConfig.{
  ConfigDefinition, ChoiceOption, ConfigType, Outcome, Value, flag, word, boolean, choice, then_do,
  str_of, or_no_options, coerce_value, deserialize_stored_value, invalid_value,
}

-- A row of the query, in its order. The default is the decoded column, `none` if it does not decode.
pub record Row (F : Type 0) : Type 0 where
  pub id : String
  pub key : String
  pub name : String
  pub config_type : String
  pub description : String
  pub default_value : Option (Json F)
  pub option_value : Option String
  pub option_label : String

module _ {F : Type 0} where
  abbrev pub typed_default : Row F → Value → Outcome (ConfigType × Value)
  typed_default row value =
      if row.config_type == "boolean"
      then then_do (λ b. returned (boolean, flag b)) (coerce_value row.key value)
      else if row.config_type == "choice"
      then returned (choice, word (str_of value))
      else failed (invalid_value row.key)

  -- The definition of a row whose key is new, without its options.
  unfoldable pub new_definition : Row F → Outcome ConfigDefinition
  unfolding deserialize_stored_value
  new_definition row =
      then_do
        (λ typed. returned (record {
          id = row.id;
          key = row.key;
          name = row.name;
          config_type = typed.0;
          description = row.description;
          default_value = typed.1;
          options = [];
        }))
        (then_do (typed_default row) (deserialize_stored_value row.key row.default_value))

-- The variables of the loop; the keys of `definitions_by_key` are `ordered_keys`.
pub record Loaded : Type 0 where
  pub definitions_by_key : List (String × ConfigDefinition)
  pub options_by_key : List (String × List ChoiceOption)

abbrev pub add_definition : Loaded → ConfigDefinition → Loaded
add_definition l d = record l { definitions_by_key = Dict.put l.definitions_by_key d.key d }

abbrev pub with_options : List (String × List ChoiceOption) → ConfigDefinition → ConfigDefinition
with_options options d = record d { options = or_no_options (Dict.get options d.key) }

abbrev pub definitions_of : List (String × ConfigDefinition) → List ConfigDefinition
definitions_of [] = []
definitions_of ((key, d) ∷ rest) = d ∷ definitions_of rest

-- The second loop.
abbrev pub finished : Loaded → List ConfigDefinition
finished l = map (with_options l.options_by_key) (definitions_of l.definitions_by_key)

module _ {F : Type 0} where
  abbrev pub add_option : Loaded → Row F → Option String → Loaded
  add_option l row none = l
  add_option l row (some value) =
      let options = or_no_options (Dict.get l.options_by_key row.key) in
      record l {
        options_by_key =
            Dict.put l.options_by_key row.key
              (options ++ (record { value = value; label = row.option_label } ∷ []));
      }

  unfoldable pub define : Loaded → Row F → Outcome Loaded
  unfolding new_definition
  define l row =
      if Dict.has l.definitions_by_key row.key
      then returned l
      else then_do (λ d. returned (add_definition l d)) (new_definition row)

  abbrev pub load_row : Loaded → Row F → Outcome Loaded
  load_row l row = then_do (λ l. returned (add_option l row row.option_value)) (define l row)

  abbrev pub load_rows : Loaded → List (Row F) → Outcome Loaded
  load_rows l [] = returned l
  load_rows l (row ∷ rows) = then_do (λ l. load_rows l rows) (load_row l row)

  unfoldable pub load_definitions : List (Row F) → Outcome (List ConfigDefinition)
  load_definitions rows =
      then_do (λ l. returned (finished l))
        (load_rows (record { definitions_by_key = []; options_by_key = [] }) rows)
