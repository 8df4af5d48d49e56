-- ===== src/Assistant/UserConfig/Accepting.antt =====
-- The updates that update_configs accepts.
use exobrain.Prelude.{
  String, ◌≡◌, refl, Bool, true, false, Option, none, some, List, [], ◌∷◌, ◌==◌, All, if◌then◌else◌,
  any_of,
}
use exobrain.Assistant.Calls.{returned, failed}
use exobrain.Assistant.UserConfig.{
  ConfigDefinition, ConfigType, Outcome, Value, flag, word, boolean, choice, invalid_value,
}
use exobrain.Assistant.UserConfig.Service.{
  find_definition, validate, validate_updates, validate_found,
}
use exobrain.Assistant.UserConfig.Agreement.{then_do-eq-returned}

-- The value is one that the definition allows.
abbrev IsAllowed : ConfigDefinition → Value → Type 0
IsAllowed d (flag b) = d.config_type ≡ boolean
IsAllowed d (word s) =
    (d.config_type ≡ choice) × (any_of (λ option. option.value == s) d.options ≡ true)

-- The update names a definition and a value that it allows.
abbrev pub IsAccepted : List ConfigDefinition → String × Value → Type 0
IsAccepted definitions (key, value) =
    (d : ConfigDefinition) × (find_definition definitions key ≡ some d) × IsAllowed d value

validate-IsAllowed :
    (d : ConfigDefinition) (value : Value) → validate d value ≡ returned tt → IsAllowed d value
unfolding validate
validate-IsAllowed d (flag b) h = of_type d.config_type refl h
  where
    of_type :
        (t : ConfigType)
        → d.config_type ≡ t
        → validate (record d { config_type = t }) (flag b) ≡ returned tt
        → d.config_type ≡ boolean
    of_type boolean e h = e
    of_type choice e h = cc
validate-IsAllowed d (word s) h = of_type d.config_type refl h
  where
    of_type :
        (t : ConfigType)
        → d.config_type ≡ t
        → validate (record d { config_type = t }) (word s) ≡ returned tt
        → (d.config_type ≡ choice) × (any_of (λ option. option.value == s) d.options ≡ true)
    of_type boolean e h = cc
    of_type choice e h = (e, is_option (any_of (λ option. option.value == s) d.options) h)
      where
        is_option :
            (b : Bool)
            → Path
                (Outcome (Unit {0}))
                (if b then returned tt else failed (invalid_value d.key))
                (returned tt)
            → b ≡ true
        is_option true h = refl
        is_option false h = cc

IsAllowed-validate :
    (d : ConfigDefinition) (value : Value) → IsAllowed d value → validate d value ≡ returned tt
unfolding validate
IsAllowed-validate d (flag b) h = rw h refl
IsAllowed-validate d (word s) h = rw h.0 (rw h.1 refl)

pub validate_updates-IsAccepted :
    (definitions : List ConfigDefinition) (updates : List (String × Value))
    → validate_updates definitions updates ≡ returned tt
    → All (IsAccepted definitions) updates
unfolding validate_updates validate_found
validate_updates-IsAccepted definitions [] h = tt
validate_updates-IsAccepted definitions ((key, value) ∷ updates) h =
    let (_, e0, e1) =
      then_do-eq-returned _ (validate_found (find_definition definitions key) key value) h in
    (
      of_found (find_definition definitions key) e0,
      validate_updates-IsAccepted definitions updates e1,
    )
  where
    of_found :
        (found : Option ConfigDefinition) {u : Unit {0}}
        → validate_found found key value ≡ returned u
        → (d : ConfigDefinition) × (found ≡ some d) × IsAllowed d value
    of_found none e = cc
    of_found (some d) e = (d, refl, validate-IsAllowed d value e)

pub IsAccepted-validate_updates :
    (definitions : List ConfigDefinition) (updates : List (String × Value))
    → All (IsAccepted definitions) updates
    → validate_updates definitions updates ≡ returned tt
unfolding validate_updates validate_found
IsAccepted-validate_updates definitions [] a = refl
IsAccepted-validate_updates definitions ((key, value) ∷ updates) a =
    let (d, found, allowed) = a.0 in
    rw found (
      rw (IsAllowed-validate d value allowed) (IsAccepted-validate_updates definitions updates a.1))
