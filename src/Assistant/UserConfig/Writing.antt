-- ===== src/Assistant/UserConfig/Writing.antt =====
-- What _persist_overrides leaves of the override of each definition.
use exobrain.Prelude.{
  String, ◌≡◌, ◌⊎◌, subst, refl, sym, ◌∙◌, ap, Bool, true, false, Option, none, some, List, [], ◌∷◌,
  ◌==◌, arith, eq_iff, eq_refl, All, if◌then◌else◌, Bool-cases, inl, inr,
}
use exobrain.Prelude.Dict
use exobrain.Prelude.Json.{Json}
use exobrain.Assistant.UserConfig.{ConfigDefinition, Value, serialize_value, same_value}
use exobrain.Assistant.UserConfig.Service.{Table, find_definition, persist_found, persist_overrides}
use exobrain.Assistant.UserConfig.Agreement.{AreApart}

-- The definition is found by its key, and what is found by another key has another id.
pub record IsOwn (definitions : List ConfigDefinition) (d : ConfigDefinition) : Type 0 where
  pub found : find_definition definitions d.key ≡ some d
  pub apart :
      (k : String) (e : ConfigDefinition)
      → find_definition definitions k ≡ some e
      → (k == d.key) ≡ false
      → (e.id == d.id) ≡ false

sym_false : (j k : String) → (j == k) ≡ false → (k == j) ≡ false
sym_false j k n = ground (arith, eq_iff j k, eq_iff k j)

found-Others :
    (P : ConfigDefinition → Type 0) (definitions : List ConfigDefinition) (k : String)
    (e : ConfigDefinition)
    → All P definitions
    → find_definition definitions k ≡ some e
    → P e
found-Others P [] k e a h = cc
found-Others P (x ∷ definitions) k e a h =
    split (x.key == k) (λ h'. found-Others P definitions k e a.1 h') h
  where
    split :
        (b : Bool)
        → (find_definition definitions k ≡ some e → P e)
        → (if b then some x else find_definition definitions k) ≡ some e
        → P e
    split true rest h' = subst P (same h') a.0
      where
        same : some x ≡ some e → x ≡ e
        same q = cc
    split false rest h' = rest h'

IsOwn-cons :
    (x : ConfigDefinition) (definitions : List ConfigDefinition) (d : ConfigDefinition)
    → (x.key == d.key) ≡ false
    → (x.id == d.id) ≡ false
    → IsOwn definitions d
    → IsOwn (x ∷ definitions) d
IsOwn-cons x definitions d k i o = record {
  found = rw k o.found;
  apart = λ j e h n. split j e (Bool-cases (x.key == j)) h n;
}
  where
    split :
        (j : String) (e : ConfigDefinition)
        → ((x.key == j) ≡ true) ⊎ ((x.key == j) ≡ false)
        → (if x.key == j then some x else find_definition definitions j) ≡ some e
        → (j == d.key) ≡ false
        → (e.id == d.id) ≡ false
    split j e (inl t) h n = subst (λ y. (y.id == d.id) ≡ false) (same (sym (rw t refl) ∙ h)) i
      where
        same : some x ≡ some e → x ≡ e
        same q = cc
    split j e (inr f) h n = o.apart j e (sym (rw f refl) ∙ h) n

IsOwn-first :
    (x : ConfigDefinition) (definitions : List ConfigDefinition)
    → All (λ e. (x.id == e.id) ≡ false) definitions
    → IsOwn (x ∷ definitions) x
IsOwn-first x definitions a = record {
  found = rw (eq_refl x.key) refl;
  apart = λ j e h n. sym_false x.id e.id (
      found-Others (λ y. (x.id == y.id) ≡ false) definitions j e a
        (sym (rw (sym_false j x.key n) refl) ∙ h));
}

pub AreApart-IsOwn :
    (definitions : List ConfigDefinition)
    → AreApart definitions
    → All (IsOwn definitions) definitions
AreApart-IsOwn [] a = tt
AreApart-IsOwn (x ∷ definitions) a =
    (IsOwn-first x definitions a.1, later definitions a.0 a.1 (AreApart-IsOwn definitions a.2))
  where
    later :
        (ds : List ConfigDefinition)
        → All (λ e. (x.key == e.key) ≡ false) ds
        → All (λ e. (x.id == e.id) ≡ false) ds
        → All (IsOwn definitions) ds
        → All (IsOwn (x ∷ definitions)) ds
    later [] k i o = tt
    later (d ∷ ds) k i o = (IsOwn-cons x definitions d k.0 i.0 o.0, later ds k.1 i.1 o.1)

-- A dictionary has a key once.
abbrev pub IsDict : List (String × Value) → Type 0
IsDict [] = Unit
IsDict ((key, value) ∷ updates) = (Dict.get updates key ≡ none) × IsDict updates

module _ {F : Type 0} where
  -- The override that an update of the definition leaves.
  abbrev pub written : ConfigDefinition → Value → Option (Json F)
  written d value =
      if same_value value d.default_value then none else some (serialize_value d.config_type value)

  abbrev pub after_update : ConfigDefinition → Option Value → Option (Json F) → Option (Json F)
  after_update d none stored = stored
  after_update d (some value) stored = written d value

  persist_found-own :
      (d : ConfigDefinition) (value : Value) (table : Table F)
      → Dict.get (persist_found (some d) value table) d.id ≡ written d value
  persist_found-own d value table = split (same_value value d.default_value)
    where
      split :
          (b : Bool)
          → Dict.get
              (if b
                then Dict.remove table d.id
                else Dict.put table d.id (serialize_value d.config_type value))
              d.id
            ≡ (if b then none else some (serialize_value d.config_type value))
      split true = rw (Dict.get-remove table d.id d.id) (rw (eq_refl d.id) refl)
      split false =
          rw (Dict.get-put table d.id (serialize_value d.config_type value) d.id)
            (rw (eq_refl d.id) refl)

  persist_found-other :
      (found : Option ConfigDefinition) (value : Value) (table : Table F) (id : String)
      → ((e : ConfigDefinition) → found ≡ some e → (e.id == id) ≡ false)
      → Dict.get (persist_found found value table) id ≡ Dict.get table id
  persist_found-other none value table id h = refl
  persist_found-other (some e) value table id h =
      split (same_value value e.default_value) (h e refl)
    where
      split :
          (b : Bool)
          → (e.id == id) ≡ false
          → Dict.get
              (if b
                then Dict.remove table e.id
                else Dict.put table e.id (serialize_value e.config_type value))
              id
            ≡ Dict.get table id
      split true n = rw (Dict.get-remove table e.id id) (rw n refl)
      split false n =
          rw (Dict.get-put table e.id (serialize_value e.config_type value) id) (rw n refl)

  pub get-persist_overrides :
      (definitions : List ConfigDefinition) (d : ConfigDefinition) (updates : List (String × Value))
      (table : Table F)
      → IsOwn definitions d
      → IsDict updates
      → Dict.get (persist_overrides definitions updates table) d.id
        ≡ after_update d (Dict.get updates d.key) (Dict.get table d.id)
  unfolding persist_overrides Dict.get
  get-persist_overrides definitions d [] table o u = refl
  get-persist_overrides definitions d ((key, value) ∷ updates) table o u =
      get-persist_overrides definitions d updates
        (persist_found (find_definition definitions key) value table) o u.1
      ∙ split (Bool-cases (key == d.key))
    where
      own : (key == d.key) ≡ true → key ≡ d.key
      own t = ground (arith, eq_iff key d.key)

      split :
          ((key == d.key) ≡ true) ⊎ ((key == d.key) ≡ false)
          → after_update d
              (Dict.get updates d.key)
              (Dict.get (persist_found (find_definition definitions key) value table) d.id)
            ≡ after_update d
                (if key == d.key then some value else Dict.get updates d.key)
                (Dict.get table d.id)
      split (inl t) = rw t (
          rw (sym (ap (Dict.get updates) (own t)) ∙ u.0) (
            ap (λ k. Dict.get (persist_found (find_definition definitions k) value table) d.id)
              (own t)
            ∙ ap (λ found. Dict.get (persist_found found value table) d.id) o.found
            ∙ persist_found-own d value table))
      split (inr f) = rw f (
          ap (after_update d (Dict.get updates d.key)) (
            persist_found-other (find_definition definitions key) value table d.id
              (λ e h. o.apart key e h f)))
