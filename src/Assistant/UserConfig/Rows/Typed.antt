-- ===== src/Assistant/UserConfig/Rows/Typed.antt =====
-- What the definitions that _load_definitions gives satisfy.
use exobrain.Prelude.{String, ◌≡◌, subst, false, List, [], ◌∷◌, ◌==◌, map, All}
use exobrain.Prelude.Dict
use exobrain.Assistant.Calls.{returned}
use exobrain.Assistant.UserConfig.{ConfigDefinition, ChoiceOption, or_no_options}
use exobrain.Assistant.UserConfig.Rows.{
  Row, Loaded, with_options, definitions_of, finished, load_rows, load_definitions,
}
use exobrain.Assistant.UserConfig.Agreement.{then_do-eq-returned, returned_inj}
use exobrain.Assistant.UserConfig.Rows.Steps.{
  IsTyped, AreKeysApart, options_in, Entry, load_rows-AreSteps,
}

-- The definitions that are loaded from the rows.
pub record AreLoaded {F : Type 0} (rows : List (Row F)) (definitions : List ConfigDefinition)
    : Type 0 where
  pub typed : All IsTyped definitions
  pub apart : AreKeysApart definitions
  pub options : All (λ d. d.options ≡ options_in rows d.key) definitions

module _ (with_own : List (String × List ChoiceOption)) where
  IsTyped-finished :
      (entries : List Entry)
      → All (λ e. (e.0 ≡ e.1.key) × IsTyped e.1) entries
      → All IsTyped (map (with_options with_own) (definitions_of entries))
  IsTyped-finished [] h = tt
  IsTyped-finished (e ∷ entries) h = (h.0.1, IsTyped-finished entries h.1)

  others_finished :
      (k : String) (ds : List ConfigDefinition)
      → All (λ e. (k == e.key) ≡ false) ds
      → All (λ e. (k == e.key) ≡ false) (map (with_options with_own) ds)
  others_finished k [] h = tt
  others_finished k (d ∷ ds) h = (h.0, others_finished k ds h.1)

  apart_finished :
      (ds : List ConfigDefinition) → AreKeysApart ds → AreKeysApart (map (with_options with_own) ds)
  apart_finished [] h = tt
  apart_finished (d ∷ ds) h = (others_finished d.key ds h.0, apart_finished ds h.1)

  options_finished :
      (found : String → List ChoiceOption)
      → ((k : String) → or_no_options (Dict.get with_own k) ≡ found k)
      → (ds : List ConfigDefinition)
      → All (λ d. d.options ≡ found d.key) (map (with_options with_own) ds)
  options_finished found h [] = tt
  options_finished found h (d ∷ ds) = (h d.key, options_finished found h ds)

-- The definitions that are loaded have distinct keys, each has a default of the type that it declares,
-- and the options of each are those in the rows of its key, in their order.
pub load_definitions-AreLoaded :
    {F : Type 0} (rows : List (Row F)) (definitions : List ConfigDefinition)
    → load_definitions rows ≡ returned definitions
    → AreLoaded rows definitions
unfolding load_definitions Dict.get
load_definitions-AreLoaded rows definitions h =
    let start : Loaded = record { definitions_by_key = []; options_by_key = [] } in
    let (l, e0, e1) = then_do-eq-returned (λ l. returned (finished l)) (load_rows start rows) h in
    let x = load_rows-AreSteps rows start l e0 in
    let keyed = x.keyed (record { own_keys = tt; apart = tt }) in
    subst (AreLoaded rows) (returned_inj (finished l) definitions e1) (record {
      typed = IsTyped-finished l.options_by_key l.definitions_by_key keyed.own_keys;
      apart = apart_finished l.options_by_key (definitions_of l.definitions_by_key) keyed.apart;
      options =
          options_finished l.options_by_key (options_in rows) x.options
            (definitions_of l.definitions_by_key);
    })
