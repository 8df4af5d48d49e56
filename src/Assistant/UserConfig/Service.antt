-- ===== src/Assistant/UserConfig/Service.antt =====
-- The calls of UserConfigService, with the stored overrides of one user as the state.
use exobrain.Prelude.{
  String, Bool, true, false, not, Option, none, some, List, [], ◌∷◌, ◌==◌, any_of, if◌then◌else◌,
}
use exobrain.Prelude.Dict
use exobrain.Prelude.Json.{Json}
use exobrain.Assistant.Calls.{returned, failed}
use exobrain.Assistant.UserConfig.{
  ConfigDefinition, ConfigItem, ConfigType, Outcome, Value, flag, word, boolean, choice, then_do,
  coerce_value, deserialize_stored_value, serialize_value, same_value, unknown_config,
  invalid_value,
}
use exobrain.Assistant.UserConfig.Rows.{Row, load_definitions}

-- definitions_by_key.get(key)
abbrev pub find_definition : List ConfigDefinition → String → Option ConfigDefinition
find_definition [] key = none
find_definition (d ∷ definitions) key =
    if d.key == key then some d else find_definition definitions key

-- _validate
unfoldable pub validate : ConfigDefinition → Value → Outcome (Unit {0})
validate d value = by_type d.config_type value
  where
    by_type : ConfigType → Value → Outcome (Unit {0})
    by_type boolean (flag b) = returned tt
    by_type boolean (word s) = failed (invalid_value d.key)
    by_type choice (flag b) = failed (invalid_value d.key)
    by_type choice (word s) =
        if any_of (λ option. option.value == s) d.options
        then returned tt
        else failed (invalid_value d.key)

unfoldable pub validate_found : Option ConfigDefinition → String → Value → Outcome (Unit {0})
unfolding validate
validate_found none key value = failed (unknown_config key)
validate_found (some d) key value = validate d value

-- The loop of update_configs.
unfoldable pub validate_updates : List ConfigDefinition → List (String × Value) → Outcome (Unit {0})
unfolding validate_found
validate_updates definitions [] = returned tt
validate_updates definitions ((key, value) ∷ updates) =
    then_do (λ valid. validate_updates definitions updates)
      (validate_found (find_definition definitions key) key value)

abbrev pub or_default : Option Value → Value → Value
or_default none value = value
or_default (some override) value = override

abbrev is_some : Option Value → Bool
is_some none = false
is_some (some value) = true

abbrev pub effective_value : ConfigDefinition → ConfigType → Value → Outcome Value
effective_value d boolean value = then_do (λ b. returned (flag b)) (coerce_value d.key value)
effective_value d choice value = returned value

abbrev pub item_of : ConfigDefinition → Option Value → Value → ConfigItem
item_of d override value = record {
  key = d.key;
  name = d.name;
  config_type = d.config_type;
  description = d.description;
  options = d.options;
  value = value;
  default_value = d.default_value;
  using_default = not (is_some override);
}

-- _effective_item, of the override of the definition's key
abbrev pub effective_item : ConfigDefinition → Option Value → Outcome ConfigItem
effective_item d override =
    then_do (λ value. returned (item_of d override value))
      (effective_value d d.config_type (or_default override d.default_value))

unfoldable pub effective_items :
    List ConfigDefinition → List (String × Value) → Outcome (List ConfigItem)
effective_items [] overrides = returned []
effective_items (d ∷ definitions) overrides =
    then_do
      (λ item. then_do (λ items. returned (item ∷ items)) (effective_items definitions overrides))
      (effective_item d (Dict.get overrides d.key))

-- user_config_values, of one user: by the definition's id, the decoded value.
abbrev pub Table : Type 0 → Type 0
Table F = List (String × Json F)

module _ {F : Type 0} where
  abbrev pub with_row : ConfigDefinition → Option (Json F) → Table F → Table F
  with_row d none rows = rows
  with_row d (some value) rows = (d.key, value) ∷ rows

  -- The rows of the join with the active definitions: keys and values, in an order that the query
  -- leaves open.
  abbrev pub override_rows : List ConfigDefinition → Table F → Table F
  override_rows [] table = []
  override_rows (d ∷ definitions) table =
      with_row d (Dict.get table d.id) (override_rows definitions table)

  -- The dictionary that _load_overrides builds.
  unfoldable pub overrides_of : List (String × Value) → Table F → Outcome (List (String × Value))
  unfolding deserialize_stored_value
  overrides_of overrides [] = returned overrides
  overrides_of overrides ((key, raw) ∷ rows) =
      then_do (λ value. overrides_of (Dict.put overrides key value) rows)
        (deserialize_stored_value key (some raw))

  unfoldable pub load_overrides : List ConfigDefinition → Table F → Outcome (List (String × Value))
  unfolding overrides_of
  load_overrides definitions table = overrides_of [] (override_rows definitions table)

  -- The statement of _persist_overrides for one update: an override that is the default is removed,
  -- any other is written. No two updates are of one definition.
  abbrev pub persist_found : Option ConfigDefinition → Value → Table F → Table F
  persist_found none value table = table
  persist_found (some d) value table =
      if same_value value d.default_value
      then Dict.remove table d.id
      else Dict.put table d.id (serialize_value d.config_type value)

  unfoldable pub persist_overrides :
      List ConfigDefinition → List (String × Value) → Table F → Table F
  unfolding serialize_value
  persist_overrides definitions [] table = table
  persist_overrides definitions ((key, value) ∷ updates) table =
      persist_overrides definitions updates
        (persist_found (find_definition definitions key) value table)

  unfoldable pub effective_of : List ConfigDefinition → Table F → Outcome (List ConfigItem)
  unfolding load_overrides effective_items
  effective_of definitions table =
      then_do (effective_items definitions) (load_overrides definitions table)

  -- get_effective_configs; the rows of the definitions are the same throughout a call.
  unfoldable pub get_effective_configs : List (Row F) → Table F → Outcome (List ConfigItem)
  unfolding effective_of load_definitions
  get_effective_configs rows table =
      then_do (λ definitions. effective_of definitions table) (load_definitions rows)

  abbrev pub update_valid :
      List ConfigDefinition
      → List (String × Value)
      → Table F
      → Outcome (Unit {0})
      → Outcome (List ConfigItem) × Table F
  unfolding effective_of persist_overrides
  update_valid definitions updates table (failed e) = (failed e, table)
  update_valid definitions updates table (returned valid) =
      let table' = persist_overrides definitions updates table in
      (effective_of definitions table', table')

  abbrev update_loaded :
      List (String × Value)
      → Table F
      → Outcome (List ConfigDefinition)
      → Outcome (List ConfigItem) × Table F
  unfolding update_valid validate_updates
  update_loaded updates table (failed e) = (failed e, table)
  update_loaded updates table (returned definitions) =
      update_valid definitions updates table (validate_updates definitions updates)

  unfoldable pub update_configs :
      List (Row F) → List (String × Value) → Table F → Outcome (List ConfigItem) × Table F
  unfolding update_loaded load_definitions
  update_configs rows updates table = update_loaded updates table (load_definitions rows)
