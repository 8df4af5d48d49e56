-- ===== src/Assistant/SettingSamples.antt =====
-- The settings of a user, on which the theorems about user_config_service.py are applied.
use exobrain.Prelude.{
  String, ◌≡◌, ◌⊎◌, refl, Bool, true, false, none, some, List, [], ◌∷◌, map, All,
}
use exobrain.Prelude.Dict
use exobrain.Prelude.Text.{same_codes, lower}
use exobrain.Prelude.Json.{text, dict}
use exobrain.Assistant.Calls.{returned, failed}
use exobrain.Assistant.UserConfig.{
  ConfigDefinition, ConfigError, ConfigItem, Value, flag, word, boolean, choice,
  deserialize_stored_value,
}
use exobrain.Assistant.UserConfig.Rows.{Row, load_definitions, define, new_definition}
use exobrain.Assistant.UserConfig.Rows.Typed.{AreLoaded, load_definitions-AreLoaded}
use exobrain.Assistant.UserConfig.Service.{
  Table, update_configs, get_effective_configs, load_overrides, effective_of, effective_items,
  overrides_of,
}
use exobrain.Assistant.UserConfig.Refreshing.{refreshed}
use exobrain.Assistant.UserConfig.Accepting.{IsAccepted}
use exobrain.Assistant.UserConfig.Updating.{update_configs-IsAccepted, update_configs-refreshed}

abbrev theme_row : String → String → Row (Unit {0})
theme_row option label = record {
  id = "d1";
  key = "frontend.theme";
  name = "Theme";
  config_type = "choice";
  description = "Colours";
  default_value = some (dict (("kind", text "choice") ∷ ("value", text "light") ∷ []));
  option_value = some option;
  option_label = label;
}

abbrev rows : List (Row (Unit {0}))
rows =
    theme_row "light" "Light"
    ∷ theme_row "dark" "Dark"
    ∷ (record {
      id = "d2";
      key = "assistant.hints";
      name = "Hints";
      config_type = "boolean";
      description = "Show hints";
      default_value = some (dict (("kind", text "boolean") ∷ ("value", text "True") ∷ []));
      option_value = none;
      option_label = "";
    })
    ∷ []

abbrev theme : ConfigDefinition
theme = record {
  id = "d1";
  key = "frontend.theme";
  name = "Theme";
  config_type = choice;
  description = "Colours";
  default_value = word "light";
  options =
      record { value = "light"; label = "Light" } ∷ record { value = "dark"; label = "Dark" } ∷ [];
}

abbrev hints : ConfigDefinition
hints = record {
  id = "d2";
  key = "assistant.hints";
  name = "Hints";
  config_type = boolean;
  description = "Show hints";
  default_value = flag true;
  options = [];
}

abbrev definitions : List ConfigDefinition
definitions = theme ∷ hints ∷ []

loaded : load_definitions rows ≡ returned definitions
unfolding load_definitions define new_definition deserialize_stored_value Dict.get Dict.put Dict.has
    same_codes lower
loaded = refl

-- The user chose the dark theme, and goes back to the default.
abbrev table : Table (Unit {0})
table = ("d1", dict (("kind", text "choice") ∷ ("value", text "dark") ∷ [])) ∷ []

abbrev updates : List (String × Value)
updates = ("frontend.theme", word "light") ∷ ("assistant.hints", flag false) ∷ []

abbrev item_of : ConfigDefinition → Value → Bool → ConfigItem
item_of d value using_default = record {
  key = d.key;
  name = d.name;
  config_type = d.config_type;
  description = d.description;
  options = d.options;
  value = value;
  default_value = d.default_value;
  using_default = using_default;
}

abbrev before : List ConfigItem
before = item_of theme (word "dark") false ∷ item_of hints (flag true) true ∷ []

shown : get_effective_configs rows table ≡ returned before
unfolding get_effective_configs load_definitions define new_definition deserialize_stored_value
    effective_of load_overrides overrides_of effective_items Dict.get Dict.put Dict.has same_codes
    lower
shown = refl

load_definitions-AreLoaded_example : AreLoaded rows definitions
load_definitions-AreLoaded_example = load_definitions-AreLoaded rows definitions loaded

update_configs-IsAccepted_example :
    ((e : ConfigError) × (update_configs rows updates table ≡ (failed e, table)))
    ⊎ All (IsAccepted definitions) updates
update_configs-IsAccepted_example = update_configs-IsAccepted rows updates table definitions loaded

update_configs-refreshed_example :
    ((update_configs rows updates table).0 ≡ returned (map (refreshed updates) before))
    × (get_effective_configs rows (update_configs rows updates table).1
        ≡ returned (map (refreshed updates) before))
unfolding Dict.get
update_configs-refreshed_example =
    update_configs-refreshed rows updates table definitions before loaded
      ((refl, tt), (refl, tt), (tt, tt, tt)) shown (refl, (refl, tt))
      ((theme, refl, (refl, refl)), ((hints, refl, refl), tt))
