-- ===== src/Assistant/UserConfig/Reading.antt =====
-- What is shown for a definition is what the stored override of its own gives.
use exobrain.Prelude.{String, ◌≡◌, refl, sym, ◌∙◌, subst, List, [], ◌∷◌, All}
use exobrain.Prelude.Dict
use exobrain.Assistant.Calls.{returned}
use exobrain.Assistant.UserConfig.{ConfigDefinition, ConfigItem, Outcome, Value}
use exobrain.Assistant.UserConfig.Service.{
  Table, override_rows, overrides_of, load_overrides, effective_item, effective_items, effective_of,
}
use exobrain.Assistant.UserConfig.Agreement.{
  AreApart, then_do-eq-returned, returned_inj, none_yet, AreShown, Agrees, overrides_of-Agrees,
  IsReadable, overrides_of-IsReadable,
}

module _ {F : Type 0} where
  effective_items-AreShown :
      (definitions : List ConfigDefinition) (table : Table F) (overrides : List (String × Value))
      (items : List ConfigItem)
      → All (Agrees table overrides) definitions
      → effective_items definitions overrides ≡ returned items
      → AreShown table definitions items
  unfolding effective_items Agrees
  effective_items-AreShown [] table overrides [] a h = tt
  effective_items-AreShown [] table overrides (i ∷ items) a h = cc
  effective_items-AreShown (d ∷ definitions) table overrides items a h =
      let (item, e0, e1) = then_do-eq-returned _ (effective_item d (Dict.get overrides d.key)) h in
      let (later, e2, e3) = then_do-eq-returned _ (effective_items definitions overrides) e1 in
      of_items items e0 e3 (effective_items-AreShown definitions table overrides later a.1 e2)
    where
      of_items :
          (items : List ConfigItem) {item : ConfigItem} {later : List ConfigItem}
          → effective_item d (Dict.get overrides d.key) ≡ returned item
          → Path (Outcome (List ConfigItem)) (returned (item ∷ later)) (returned items)
          → AreShown table definitions later
          → AreShown table (d ∷ definitions) items
      of_items items {item} {later} e e' rest =
          subst (AreShown table (d ∷ definitions)) (returned_inj _ _ e')
            (record { override = Dict.get overrides d.key; read = a.0; shown = e }, rest)

  AreShown-effective_items :
      (definitions : List ConfigDefinition) (table : Table F) (overrides : List (String × Value))
      (items : List ConfigItem)
      → All (Agrees table overrides) definitions
      → AreShown table definitions items
      → effective_items definitions overrides ≡ returned items
  unfolding effective_items Agrees
  AreShown-effective_items [] table overrides [] a s = refl
  AreShown-effective_items [] table overrides (item ∷ items) a s = elim s [ ]
  AreShown-effective_items (d ∷ definitions) table overrides [] a s = elim s [ ]
  AreShown-effective_items (d ∷ definitions) table overrides (item ∷ items) a s =
      rw (returned_inj _ _ (sym a.0 ∙ s.0.read)) (
        rw s.0.shown (rw (AreShown-effective_items definitions table overrides items a.1 s.1) refl))

  AreShown-IsReadable :
      (definitions : List ConfigDefinition) (table : Table F) (items : List ConfigItem)
      → AreShown table definitions items
      → All (IsReadable table) definitions
  AreShown-IsReadable [] table items s = tt
  AreShown-IsReadable (d ∷ definitions) table [] s = elim s [ ]
  AreShown-IsReadable (d ∷ definitions) table (item ∷ items) s =
      ((s.0.override, s.0.read), AreShown-IsReadable definitions table items s.1)

  -- The items that the service returns are those of the definitions, each by its own override.
  pub effective_of-AreShown :
      (definitions : List ConfigDefinition) (table : Table F) (items : List ConfigItem)
      → AreApart definitions
      → effective_of definitions table ≡ returned items
      → AreShown table definitions items
  unfolding effective_of load_overrides
  effective_of-AreShown definitions table items a h =
      let (overrides, e0, e1) =
        then_do-eq-returned _ (overrides_of [] (override_rows definitions table)) h in
      effective_items-AreShown definitions table overrides items
        (overrides_of-Agrees definitions table [] overrides a (none_yet definitions) e0) e1

  pub AreShown-effective_of :
      (definitions : List ConfigDefinition) (table : Table F) (items : List ConfigItem)
      → AreApart definitions
      → AreShown table definitions items
      → effective_of definitions table ≡ returned items
  unfolding effective_of load_overrides
  AreShown-effective_of definitions table items a s =
      let (overrides, e) =
        overrides_of-IsReadable definitions table []
          (AreShown-IsReadable definitions table items s) in
      rw e (
        AreShown-effective_items definitions table overrides items
          (overrides_of-Agrees definitions table [] overrides a (none_yet definitions) e) s)
