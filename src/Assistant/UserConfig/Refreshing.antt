-- ===== src/Assistant/UserConfig/Refreshing.antt =====
-- What an update leaves of each setting that is shown.
use exobrain.Prelude.{
  String, ◌≡◌, ◌⊎◌, subst, refl, sym, ◌∙◌, ap, Bool, true, false, Option, none, some, List, [], ◌∷◌,
  ◌==◌, arith, eq_iff, All, if◌then◌else◌, Option-cases, Bool-cases, inl, inr, map,
}
use exobrain.Prelude.Dict
use exobrain.Assistant.Calls.{returned}
use exobrain.Assistant.UserConfig.{
  ConfigDefinition, ConfigItem, ConfigType, Outcome, Value, flag, word, boolean, choice, then_do,
  serialize_value, deserialize_stored_value, same_value, HasType,
}
use exobrain.Assistant.UserConfig.Service.{
  Table, find_definition, validate, validate_updates, validate_found, effective_item,
  effective_value, or_default, item_of, effective_of, persist_overrides,
}
use exobrain.Assistant.UserConfig.Agreement.{
  AreApart, IsShown, AreShown, read_value, then_do-eq-returned,
}
use exobrain.Assistant.UserConfig.Reading.{effective_of-AreShown, AreShown-effective_of}
use exobrain.Assistant.UserConfig.Writing.{
  IsOwn, AreApart-IsOwn, IsDict, written, after_update, get-persist_overrides,
}

-- What an update makes of a setting.
abbrev set_value : Option Value → ConfigItem → ConfigItem
set_value none item = item
set_value (some value) item = record item {
  value = value;
  using_default = same_value value item.default_value;
}

abbrev pub refreshed : List (String × Value) → ConfigItem → ConfigItem
refreshed updates item = set_value (Dict.get updates item.key) item

same_value-eq : (v w : Value) → same_value v w ≡ true → v ≡ w
same_value-eq (flag true) (flag true) h = refl
same_value-eq (flag true) (flag false) h = cc
same_value-eq (flag false) (flag true) h = cc
same_value-eq (flag false) (flag false) h = refl
same_value-eq (word s) (word t) h = ap word (ground (arith, eq_iff s t))
same_value-eq (flag b) (word t) h = cc
same_value-eq (word s) (flag b) h = cc

validate-HasType :
    (d : ConfigDefinition) (value : Value)
    → validate d value ≡ returned tt
    → HasType d.config_type value
unfolding validate
validate-HasType d value h = by_type d.config_type value h
  where
    by_type :
        (t : ConfigType) (value : Value)
        → validate (record d { config_type = t }) value ≡ returned tt
        → HasType t value
    by_type boolean (flag b) h = tt
    by_type boolean (word s) h = cc
    by_type choice (flag b) h = cc
    by_type choice (word s) h = tt

-- A value of the definition's type is shown as it is.
effective_item-HasType :
    (d : ConfigDefinition) (override : Option Value) (value : Value)
    → or_default override d.default_value ≡ value
    → HasType d.config_type value
    → effective_item d override ≡ returned (item_of d override value)
effective_item-HasType d override value e h =
    rw e (ap (then_do (λ v. returned (item_of d override v))) (by_type d.config_type value h))
  where
    by_type :
        (t : ConfigType) (value : Value)
        → HasType t value
        → effective_value d t value ≡ returned value
    by_type boolean (flag b) h = refl
    by_type boolean (word s) h = elim h [ ]
    by_type choice (flag b) h = elim h [ ]
    by_type choice (word s) h = refl

-- An item has the fields of its definition.
effective_item-item_of :
    (d : ConfigDefinition) (override : Option Value) (item : ConfigItem)
    → effective_item d override ≡ returned item
    → (value : Value) × (item_of d override value ≡ item)
effective_item-item_of d override item h =
    let (value, _, e) =
      then_do-eq-returned (λ value. returned (item_of d override value))
        (effective_value d d.config_type (or_default override d.default_value)) h in
    (value, same _ e)
  where
    same : (i : ConfigItem) → Path (Outcome ConfigItem) (returned i) (returned item) → i ≡ item
    same i e = cc

validate_updates-found :
    (definitions : List ConfigDefinition) (updates : List (String × Value)) (k : String)
    (value : Value)
    → validate_updates definitions updates ≡ returned tt
    → Dict.get updates k ≡ some value
    → validate_found (find_definition definitions k) k value ≡ returned tt
unfolding validate_updates Dict.get
validate_updates-found definitions [] k value h g = cc
validate_updates-found definitions ((key, v) ∷ updates) k value h g =
    let (_, e0, e1) =
      then_do-eq-returned _ (validate_found (find_definition definitions key) key v) h in
    split (Bool-cases (key == k)) e0
      (λ g'. validate_updates-found definitions updates k value e1 g')
  where
    same : (key == k) ≡ true → key ≡ k
    same t = ground (arith, eq_iff key k)

    same_found : some v ≡ some value → v ≡ value
    same_found e = cc

    split :
        ((key == k) ≡ true) ⊎ ((key == k) ≡ false)
        → {u : Unit {0}} → validate_found (find_definition definitions key) key v ≡ returned u
        → (Dict.get updates k ≡ some value
            → validate_found (find_definition definitions k) k value ≡ returned tt)
        → validate_found (find_definition definitions k) k value ≡ returned tt
    split (inl t) e rest =
        ap (λ j. validate_found (find_definition definitions j) j value) (sym (same t))
        ∙ ap (validate_found (find_definition definitions key) key)
            (sym (same_found (sym (rw t refl) ∙ g)))
        ∙ e
    split (inr f) e rest = rest (sym (rw f refl) ∙ g)

read-serialize_value :
    (F : Type 0) (d : ConfigDefinition) (value : Value)
    → HasType d.config_type value
    → read_value {F = F} d (some (serialize_value d.config_type value)) ≡ returned (some value)
unfolding serialize_value deserialize_stored_value read_value Dict.get
read-serialize_value F d value h = by_type d.config_type value h
  where
    by_type :
        (t : ConfigType) (value : Value)
        → HasType t value
        → read_value {F = F} d (some (serialize_value t value)) ≡ returned (some value)
    by_type boolean (flag b) h = refl
    by_type boolean (word s) h = elim h [ ]
    by_type choice (flag b) h = elim h [ ]
    by_type choice (word s) h = refl

-- What is shown of the override that an update of the definition leaves.
written-shown :
    (F : Type 0) (d : ConfigDefinition) (value old : Value) (before : Option Value)
    → HasType d.config_type value
    → (override : Option Value) × (read_value {F = F} d (written d value) ≡ returned override)
      × (effective_item d override ≡ returned (set_value (some value) (item_of d before old)))
unfolding read_value
written-shown F d value old before h = split (same_value value d.default_value) refl
  where
    split :
        (b : Bool)
        → same_value value d.default_value ≡ b
        → (override : Option Value) × (read_value {F = F} d
              (if b then none else some (serialize_value d.config_type value))
            ≡ returned override)
          × (effective_item d override
              ≡ returned (record (item_of d before old) { value = value; using_default = b }))
    split true e = (
      none,
      refl,
      effective_item-HasType d none value (sym (same_value-eq value d.default_value e)) h,
    )
    split false e = (
      some value,
      read-serialize_value F d value h,
      effective_item-HasType d (some value) value refl h,
    )

module _ {F : Type 0} where
  module _ (definitions : List ConfigDefinition) (updates : List (String × Value)) (table : Table F)
      (updates_dict : IsDict updates)
      (valid : validate_updates definitions updates ≡ returned tt) where
    valid-HasType :
        (d : ConfigDefinition) (value : Value)
        → IsOwn definitions d
        → Dict.get updates d.key ≡ some value
        → HasType d.config_type value
    unfolding validate_found
    valid-HasType d value o g = validate-HasType d value (
        sym (ap (λ found. validate_found found d.key value) o.found)
        ∙ validate_updates-found definitions updates d.key value valid g)

    IsShown-refreshed :
        (d : ConfigDefinition) (item : ConfigItem)
        → IsOwn definitions d
        → IsShown table d item
        → IsShown (persist_overrides definitions updates table) d (refreshed updates item)
    unfolding read_value
    IsShown-refreshed d item o x =
        let (old, e) = effective_item-item_of d x.override item x.shown in
        subst (λ i. IsShown (persist_overrides definitions updates table) d (refreshed updates i)) e
          (of_update (Option-cases (Dict.get updates d.key)) old e)
      where
        stored :
            Dict.get (persist_overrides definitions updates table) d.id
            ≡ after_update d (Dict.get updates d.key) (Dict.get table d.id)
        stored = get-persist_overrides definitions d updates table o updates_dict

        of_update :
            (Dict.get updates d.key ≡ none) ⊎ ((v : Value) × (Dict.get updates d.key ≡ some v))
            → (old : Value) → item_of d x.override old ≡ item
            → IsShown
                (persist_overrides definitions updates table)
                d
                (refreshed updates (item_of d x.override old))
        of_update (inl g) old e = record {
          override = x.override;
          read =
              ap (read_value d) (stored ∙ ap (λ u. after_update d u (Dict.get table d.id)) g)
              ∙ x.read;
          shown =
              x.shown
              ∙ ap returned (sym e ∙ ap (λ u. set_value u (item_of d x.override old)) (sym g));
        }
        of_update (inr (value, g)) old e =
            let (override, e0, e1) =
              written-shown F d value old x.override (valid-HasType d value o g) in
            record {
              override = override;
              read =
                  ap (read_value d) (stored ∙ ap (λ u. after_update d u (Dict.get table d.id)) g)
                  ∙ e0;
              shown = e1 ∙ ap returned (ap (λ u. set_value u (item_of d x.override old)) (sym g));
            }

    AreShown-refreshed :
        (ds : List ConfigDefinition) (items : List ConfigItem)
        → All (IsOwn definitions) ds
        → AreShown table ds items
        → AreShown (persist_overrides definitions updates table) ds (map (refreshed updates) items)
    AreShown-refreshed [] [] o s = tt
    AreShown-refreshed [] (item ∷ items) o s = s
    AreShown-refreshed (d ∷ ds) [] o s = s
    AreShown-refreshed (d ∷ ds) (item ∷ items) o s =
        (IsShown-refreshed d item o.0 s.0, AreShown-refreshed ds items o.1 s.1)

    pub effective_of-refreshed :
        (items : List ConfigItem)
        → AreApart definitions
        → effective_of definitions table ≡ returned items
        → effective_of definitions (persist_overrides definitions updates table)
          ≡ returned (map (refreshed updates) items)
    effective_of-refreshed items a h = AreShown-effective_of definitions _ _ a (
        AreShown-refreshed definitions items (AreApart-IsOwn definitions a)
          (effective_of-AreShown definitions table items a h))
