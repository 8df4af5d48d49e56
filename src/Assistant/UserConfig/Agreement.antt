-- ===== src/Assistant/UserConfig/Agreement.antt =====
-- The dictionary of overrides agrees with what is stored for each definition.
use exobrain.Prelude.{
  String, ◌≡◌, refl, sym, ◌∙◌, ap, false, Option, none, some, List, [], ◌∷◌, ◌==◌, arith, eq_iff,
  eq_refl, All, All-map_to,
}
use exobrain.Prelude.Dict
use exobrain.Prelude.Json.{Json}
use exobrain.Assistant.Calls.{returned, failed}
use exobrain.Assistant.UserConfig.{
  ConfigDefinition, ConfigItem, Outcome, Value, then_do, deserialize_stored_value,
}
use exobrain.Assistant.UserConfig.Service.{
  Table, with_row, override_rows, overrides_of, effective_item,
}

-- No two definitions have one key or one id.
abbrev pub AreApart : List ConfigDefinition → Type 0
AreApart [] = Unit
AreApart (d ∷ definitions) =
    All (λ e. (d.key == e.key) ≡ false) definitions
    × All (λ e. (d.id == e.id) ≡ false) definitions
    × AreApart definitions

pub then_do-eq-returned :
    {A B : Type 0} (f : A → Outcome B) (o : Outcome A) {b : B}
    → then_do f o ≡ returned b
    → (a : A) × (o ≡ returned a) × (f a ≡ returned b)
then_do-eq-returned f (returned a) h = (a, refl, h)
then_do-eq-returned f (failed e) h = cc

abbrev Others : String → List ConfigDefinition → Type 0
Others k definitions = All (λ e. (k == e.key) ≡ false) definitions

put-other :
    (acc : List (String × Value)) (j : String) (v : Value) (k : String)
    → (j == k) ≡ false
    → Dict.get (Dict.put acc j v) k ≡ Dict.get acc k
put-other acc j v k n = rw (Dict.get-put acc j v k) (rw n refl)

put-same :
    (acc : List (String × Value)) (k : String) (v : Value) → Dict.get (Dict.put acc k v) k ≡ some v
put-same acc k v = rw (Dict.get-put acc k v k) (rw (eq_refl k) refl)

sym_false : (j k : String) → (j == k) ≡ false → (k == j) ≡ false
sym_false j k n = ground (arith, eq_iff j k, eq_iff k j)

pub returned_inj : {A : Type 0} (x y : A) → Path (Outcome A) (returned x) (returned y) → x ≡ y
returned_inj x y e = cc

pub none_yet :
    (definitions : List ConfigDefinition)
    → All (λ d. Dict.get {V = Value} [] d.key ≡ none) definitions
unfolding Dict.get
none_yet [] = tt
none_yet (d ∷ definitions) = (refl, none_yet definitions)

module _ {F : Type 0} where
  -- The value of a definition's stored override.
  unfoldable pub read_value : ConfigDefinition → Option (Json F) → Outcome (Option Value)
  unfolding deserialize_stored_value
  read_value d none = returned none
  read_value d (some raw) =
      then_do (λ value. returned (some value)) (deserialize_stored_value d.key (some raw))

  -- The item of a definition, by its own override alone.
  pub record IsShown (table : Table F) (d : ConfigDefinition) (item : ConfigItem) : Type 0 where
    pub override : Option Value
    pub read : read_value d (Dict.get table d.id) ≡ returned override
    pub shown : effective_item d override ≡ returned item

  abbrev pub AreShown : Table F → List ConfigDefinition → List ConfigItem → Type 0
  AreShown table [] [] = Unit
  AreShown table [] (item ∷ items) = ⊥
  AreShown table (d ∷ definitions) [] = ⊥
  AreShown table (d ∷ definitions) (item ∷ items) =
      IsShown table d item × AreShown table definitions items

  -- The dictionary has what is read for the definition.
  unfoldable pub Agrees : Table F → List (String × Value) → ConfigDefinition → Type 0
  Agrees table overrides d =
      read_value d (Dict.get table d.id) ≡ returned (Dict.get overrides d.key)

  abbrev add_read :
      List ConfigDefinition
      → Table F
      → List (String × Value)
      → ConfigDefinition
      → Option (Json F)
      → Outcome (List (String × Value))
  unfolding overrides_of
  add_read definitions table acc d stored =
      overrides_of acc (with_row d stored (override_rows definitions table))

  -- A key of no definition keeps what it had.
  overrides_of-other :
      (definitions : List ConfigDefinition) (table : Table F)
      (acc overrides : List (String × Value)) (k : String)
      → Others k definitions
      → overrides_of acc (override_rows definitions table) ≡ returned overrides
      → Dict.get overrides k ≡ Dict.get acc k
  unfolding overrides_of
  overrides_of-other [] table acc overrides k o h = ap (λ r. Dict.get (get_returned r) k) (sym h)
    where
      get_returned : Outcome (List (String × Value)) → List (String × Value)
      get_returned (returned d) = d
      get_returned (failed e) = []
  overrides_of-other (d ∷ definitions) table acc overrides k o h =
      of_stored (Dict.get table d.id)
        (λ acc' h'. overrides_of-other definitions table acc' overrides k o.1 h') h
    where
      of_stored :
          (stored : Option (Json F))
          → ((acc' : List (String × Value))
              → overrides_of acc' (override_rows definitions table) ≡ returned overrides
              → Dict.get overrides k ≡ Dict.get acc' k)
          → add_read definitions table acc d stored ≡ returned overrides
          → Dict.get overrides k ≡ Dict.get acc k
      of_stored none rest e = rest acc e
      of_stored (some raw) rest e =
          let (v, _, e') = then_do-eq-returned _ (deserialize_stored_value d.key (some raw)) e in
          rest (Dict.put acc d.key v) e' ∙ put-other acc d.key v k (sym_false k d.key o.0)

  abbrev AgreesAs : ConfigDefinition → Option (Json F) → List (String × Value) → Type 0
  AgreesAs d stored overrides = read_value d stored ≡ returned (Dict.get overrides d.key)

  pub overrides_of-Agrees :
      (definitions : List ConfigDefinition) (table : Table F)
      (acc overrides : List (String × Value))
      → AreApart definitions
      → All (λ d. Dict.get acc d.key ≡ none) definitions
      → overrides_of acc (override_rows definitions table) ≡ returned overrides
      → All (Agrees table overrides) definitions
  unfolding overrides_of Agrees read_value
  overrides_of-Agrees [] table acc overrides a n h = tt
  overrides_of-Agrees (d ∷ definitions) table acc overrides a n h =
      of_stored (Dict.get table d.id)
        (λ acc' n' h'. overrides_of-Agrees definitions table acc' overrides a.2 n' h')
        (λ acc' h'. overrides_of-other definitions table acc' overrides d.key a.0 h') h
    where
      still_none :
          (v : Value) (e : ConfigDefinition)
          → (Dict.get acc e.key ≡ none) × ((d.key == e.key) ≡ false)
          → Dict.get (Dict.put acc d.key v) e.key ≡ none
      still_none v e (g, o) = put-other acc d.key v e.key o ∙ g

      both :
          (es : List ConfigDefinition)
          → All (λ e. Dict.get acc e.key ≡ none) es
          → Others d.key es
          → All (λ e. (Dict.get acc e.key ≡ none) × ((d.key == e.key) ≡ false)) es
      both [] g o = tt
      both (e ∷ es) g o = ((g.0, o.0), both es g.1 o.1)

      of_stored :
          (stored : Option (Json F))
          → ((acc' : List (String × Value))
              → All (λ e. Dict.get acc' e.key ≡ none) definitions
              → overrides_of acc' (override_rows definitions table) ≡ returned overrides
              → All (Agrees table overrides) definitions)
          → ((acc' : List (String × Value))
              → overrides_of acc' (override_rows definitions table) ≡ returned overrides
              → Dict.get overrides d.key ≡ Dict.get acc' d.key)
          → add_read definitions table acc d stored ≡ returned overrides
          → AgreesAs d stored overrides × All (Agrees table overrides) definitions
      of_stored none rest own e = (ap returned (sym (own acc e ∙ n.0)), rest acc n.1 e)
      of_stored (some raw) rest own e =
          let (v, e0, e') = then_do-eq-returned _ (deserialize_stored_value d.key (some raw)) e in
          (
            ap (then_do (λ value. returned (some value))) e0
                ∙ ap returned (sym (own _ e' ∙ put-same acc d.key v)),
            rest _ (All-map_to _ _ (still_none v) definitions (both definitions n.1 a.0)) e',
          )

  abbrev pub IsReadable : Table F → ConfigDefinition → Type 0
  IsReadable table d =
      (override : Option Value) × (read_value d (Dict.get table d.id) ≡ returned override)

  pub overrides_of-IsReadable :
      (definitions : List ConfigDefinition) (table : Table F) (acc : List (String × Value))
      → All (IsReadable table) definitions
      → (overrides : List (String × Value)) × (overrides_of acc (override_rows definitions table)
          ≡ returned overrides)
  unfolding overrides_of read_value
  overrides_of-IsReadable [] table acc r = (acc, refl)
  overrides_of-IsReadable (d ∷ definitions) table acc r =
      of_stored (Dict.get table d.id) r.0.1
        (λ acc'. overrides_of-IsReadable definitions table acc' r.1)
    where
      of_stored :
          (stored : Option (Json F)) {override : Option Value}
          → read_value d stored ≡ returned override
          → ((acc' : List (String × Value))
              → (overrides : List (String × Value)) × (overrides_of acc'
                    (override_rows definitions table)
                  ≡ returned overrides))
          → (overrides : List (String × Value)) × (add_read definitions table acc d stored
              ≡ returned overrides)
      of_stored none e rest = rest acc
      of_stored (some raw) e rest =
          let (v, e0, e1) = then_do-eq-returned _ (deserialize_stored_value d.key (some raw)) e in
          let (overrides, e2) = rest (Dict.put acc d.key v) in (overrides, rw e0 e2)
