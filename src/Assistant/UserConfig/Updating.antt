-- ===== src/Assistant/UserConfig/Updating.antt =====
-- update_configs against its specification: all or nothing, and then exactly the settings that were
-- named are changed.
use exobrain.Prelude.{String, ◌≡◌, ◌⊎◌, refl, sym, ◌∙◌, List, All, inl, inr, map}
use exobrain.Assistant.Calls.{returned, failed}
use exobrain.Assistant.UserConfig.{ConfigDefinition, ConfigItem, Outcome, Value, ConfigError}
use exobrain.Assistant.UserConfig.Rows.{Row, load_definitions}
use exobrain.Assistant.UserConfig.Service.{
  Table, validate_updates, get_effective_configs, update_configs, update_valid,
}
use exobrain.Assistant.UserConfig.Agreement.{AreApart}
use exobrain.Assistant.UserConfig.Writing.{IsDict}
use exobrain.Assistant.UserConfig.Refreshing.{refreshed, effective_of-refreshed}
use exobrain.Assistant.UserConfig.Accepting.{
  IsAccepted, validate_updates-IsAccepted, IsAccepted-validate_updates,
}

module _ {F : Type 0} (rows : List (Row F)) (updates : List (String × Value))
    (table : Table F) where
  -- For the loaded definitions, either every update names one of them and a value that it allows, or
  -- the call raises and no stored override is changed.
  pub update_configs-IsAccepted :
      (definitions : List ConfigDefinition)
      → load_definitions rows ≡ returned definitions
      → ((e : ConfigError) × (update_configs rows updates table ≡ (failed e, table)))
        ⊎ All (IsAccepted definitions) updates
  unfolding update_configs
  update_configs-IsAccepted definitions loaded =
      rw loaded (of_answer (validate_updates definitions updates) refl)
    where
      of_answer :
          (v : Outcome (Unit {0}))
          → validate_updates definitions updates ≡ v
          → ((e : ConfigError) × (update_valid definitions updates table v ≡ (failed e, table)))
            ⊎ All (IsAccepted definitions) updates
      of_answer (returned u) h = inr (validate_updates-IsAccepted definitions updates h)
      of_answer (failed e) h = inl (e, refl)

  -- Where the settings can be shown, no two definitions have one key or one id, the updates name no
  -- key twice, and each names a definition and a value that it allows: the call returns the settings
  -- as they were, but each that is named with its new value, and with the mark of a default exactly if
  -- the value is the default; and what is shown afterwards is the same.
  pub update_configs-refreshed :
      (definitions : List ConfigDefinition) (before : List ConfigItem)
      → load_definitions rows ≡ returned definitions
      → AreApart definitions
      → get_effective_configs rows table ≡ returned before
      → IsDict updates
      → All (IsAccepted definitions) updates
      → let (answer, table') = update_configs rows updates table in
        (answer ≡ returned (map (refreshed updates) before))
        × (get_effective_configs rows table' ≡ returned (map (refreshed updates) before))
  unfolding update_configs get_effective_configs
  update_configs-refreshed definitions before loaded apart shown updates_dict accepted =
      let valid = IsAccepted-validate_updates definitions updates accepted in
      let after =
        effective_of-refreshed definitions updates table updates_dict valid before apart
          (sym (rw loaded refl) ∙ shown) in
      rw loaded (rw valid (after, after))
