-- ===== src/Assistant/UserConfig/Rows/Steps.antt =====
-- What each row adds to the definitions and to the options.
use exobrain.Prelude.{
  String, ◌≡◌, refl, sym, ◌∙◌, ap, subst, Bool, true, false, Option, none, some, List, [], ◌∷◌,
  ◌++◌, ◌==◌, arith, eq_iff, All, All-append, if◌then◌else◌,
}
use exobrain.Prelude.Dict
use exobrain.Assistant.Calls.{returned, failed}
use exobrain.Assistant.UserConfig.{
  ConfigDefinition, ChoiceOption, ConfigType, Outcome, Value, flag, word, boolean, choice, then_do,
  or_no_options, coerce_value, deserialize_stored_value, HasType, str_of, invalid_value,
}
use exobrain.Assistant.UserConfig.Rows.{
  Row, Loaded, add_definition, add_option, definitions_of, typed_default, new_definition, define,
  load_row, load_rows,
}
use exobrain.Assistant.UserConfig.Agreement.{then_do-eq-returned, returned_inj}
use exobrain.Assistant.Sequences.Splitting.{append_assoc, append_nil}

-- The default of a definition has its type.
abbrev pub IsTyped : ConfigDefinition → Type 0
IsTyped d = HasType d.config_type d.default_value

abbrev pub AreKeysApart : List ConfigDefinition → Type 0
AreKeysApart [] = Unit
AreKeysApart (d ∷ definitions) =
    All (λ e. (d.key == e.key) ≡ false) definitions × AreKeysApart definitions

abbrev option_of : String → Option String → List ChoiceOption
option_of label none = []
option_of label (some value) = record { value = value; label = label } ∷ []

-- The options in the rows of a key, in their order.
abbrev pub options_in : {F : Type 0} → List (Row F) → String → List ChoiceOption
options_in [] key = []
options_in (row ∷ rows) key =
    (if row.key == key then option_of row.option_label row.option_value else [])
    ++ options_in rows key

abbrev pub Entry : Type 0
Entry = String × ConfigDefinition

-- The entries of definitions_by_key: each under its key, typed, no two with one key.
pub record IsKeyed (entries : List Entry) : Type 0 where
  pub own_keys : All (λ e. (e.0 ≡ e.1.key) × IsTyped e.1) entries
  pub apart : AreKeysApart (definitions_of entries)

put-absent :
    (entries : List Entry) (k : String) (d : ConfigDefinition)
    → Dict.has entries k ≡ false
    → Dict.put entries k d ≡ entries ++ ((k, d) ∷ [])
unfolding Dict.has Dict.put
put-absent [] k d h = refl
put-absent ((j, e) ∷ entries) k d h = split (j == k) (put-absent entries k d) h
  where
    split :
        (b : Bool)
        → (Dict.has entries k ≡ false → Dict.put entries k d ≡ entries ++ ((k, d) ∷ []))
        → (if b then true else Dict.has entries k) ≡ false
        → (if b then (j, d) ∷ entries else (j, e) ∷ Dict.put entries k d)
          ≡ (j, e) ∷ entries ++ ((k, d) ∷ [])
    split true rest h = cc
    split false rest h = ap (λ r. (j, e) ∷ r) (rest h)

apart-add :
    (entries : List Entry) (d : ConfigDefinition)
    → All (λ e. (e.0 ≡ e.1.key) × IsTyped e.1) entries
    → Dict.has entries d.key ≡ false
    → AreKeysApart (definitions_of entries)
    → AreKeysApart (definitions_of (entries ++ ((d.key, d) ∷ [])))
unfolding Dict.has
apart-add [] d own h a = (tt, tt)
apart-add ((j, e) ∷ entries) d own h a =
    (others entries a.0, apart-add entries d own.1 (ground arith) a.1)
  where
    differ : (e.key == d.key) ≡ false
    differ = ground (arith, own.0.0)

    others :
        (es : List Entry)
        → All (λ x. (e.key == x.key) ≡ false) (definitions_of es)
        → All (λ x. (e.key == x.key) ≡ false) (definitions_of (es ++ ((d.key, d) ∷ [])))
    others [] h = (differ, tt)
    others (x ∷ es) h = (h.0, others es h.1)

IsKeyed-add :
    (l : Loaded) (d : ConfigDefinition)
    → Dict.has l.definitions_by_key d.key ≡ false
    → IsTyped d
    → IsKeyed l.definitions_by_key
    → IsKeyed (add_definition l d).definitions_by_key
IsKeyed-add l d h t x = subst IsKeyed (sym (put-absent l.definitions_by_key d.key d h)) (record {
  own_keys = All-append _ l.definitions_by_key _ x.own_keys ((refl, t), tt);
  apart = apart-add l.definitions_by_key d x.own_keys h x.apart;
})

-- The definitions change, and the options do not.
record IsDefined (l l' : Loaded) : Type 0 where
  pub keyed : IsKeyed l.definitions_by_key → IsKeyed l'.definitions_by_key
  pub options : l'.options_by_key ≡ l.options_by_key

module _ {F : Type 0} where
  new_definition-IsTyped :
      (row : Row F) (d : ConfigDefinition)
      → new_definition row ≡ returned d
      → (d.key ≡ row.key) × IsTyped d
  unfolding new_definition
  new_definition-IsTyped row d h =
      let (typed, e0, e1) =
        then_do-eq-returned _
          (then_do (typed_default row) (deserialize_stored_value row.key row.default_value)) h in
      let (value, e2, e3) =
        then_do-eq-returned (typed_default row) (deserialize_stored_value row.key row.default_value)
          e0 in
      subst (λ x. (x.key ≡ row.key) × IsTyped x) (returned_inj _ d e1)
        (refl, default_HasType value typed e3)
    where
      flag_HasType :
          (o : Outcome Bool) (typed : ConfigType × Value)
          → then_do (λ b. returned (boolean, flag b)) o ≡ returned typed
          → HasType typed.0 typed.1
      flag_HasType (returned b) typed e =
          subst (λ t. HasType t.0 t.1) (returned_inj (boolean, flag b) typed e) tt
      flag_HasType (failed x) typed e = cc

      default_HasType :
          (value : Value) (typed : ConfigType × Value)
          → typed_default row value ≡ returned typed
          → HasType typed.0 typed.1
      default_HasType value typed e =
          split (row.config_type == "boolean") (row.config_type == "choice") e
        where
          split :
              (b c : Bool)
              → (if b
                  then then_do (λ b. returned (boolean, flag b)) (coerce_value row.key value)
                  else if c
                  then returned (choice, word (str_of value))
                  else failed (invalid_value row.key))
                ≡ returned typed
              → HasType typed.0 typed.1
          split true c e = flag_HasType (coerce_value row.key value) typed e
          split false true e =
              subst (λ t. HasType t.0 t.1) (returned_inj (choice, word (str_of value)) typed e) tt
          split false false e = cc

  -- One row leaves the entries keyed, and adds its option to those of its key.
  record IsStep (l : Loaded) (row : Row F) (l' : Loaded) : Type 0 where
    pub keyed : IsKeyed l.definitions_by_key → IsKeyed l'.definitions_by_key
    pub options :
        (k : String)
        → or_no_options (Dict.get l'.options_by_key k)
          ≡ or_no_options (Dict.get l.options_by_key k)
            ++ (if row.key == k then option_of row.option_label row.option_value else [])

  define-IsDefined :
      (l : Loaded) (row : Row F) (l' : Loaded) → define l row ≡ returned l' → IsDefined l l'
  unfolding define
  define-IsDefined l row l' h = split (Dict.has l.definitions_by_key row.key) refl h
    where
      split :
          (b : Bool)
          → Dict.has l.definitions_by_key row.key ≡ b
          → (if b
              then returned l
              else then_do (λ d. returned (add_definition l d)) (new_definition row))
            ≡ returned l'
          → IsDefined l l'
      split true known e =
          subst (IsDefined l) (returned_inj l l' e) (record { keyed = λ x. x; options = refl })
      split false new e =
          let (d, e0, e1) = then_do-eq-returned _ (new_definition row) e in
          let (same_key, typed) = new_definition-IsTyped row d e0 in
          subst (IsDefined l) (returned_inj (add_definition l d) l' e1) (record {
            keyed = IsKeyed-add l d (ap (Dict.has l.definitions_by_key) same_key ∙ new) typed;
            options = refl;
          })

  add_option-options :
      (l : Loaded) (row : Row F) (value : Option String) (k : String)
      → or_no_options (Dict.get (add_option l row value).options_by_key k)
        ≡ or_no_options (Dict.get l.options_by_key k)
          ++ (if row.key == k then option_of row.option_label value else [])
  add_option-options l row none k = sym (split (row.key == k))
    where
      split :
          (b : Bool)
          → or_no_options (Dict.get l.options_by_key k) ++ (if b then [] else [])
            ≡ or_no_options (Dict.get l.options_by_key k)
      split true = append_nil _
      split false = append_nil _
  add_option-options l row (some value) k =
      rw
        (Dict.get-put l.options_by_key row.key
          (or_no_options (Dict.get l.options_by_key row.key)
            ++ option_of row.option_label (some value))
          k)
        (split (row.key == k) refl)
    where
      own : (row.key == k) ≡ true → row.key ≡ k
      own t = ground (arith, eq_iff row.key k)

      split :
          (b : Bool)
          → (row.key == k) ≡ b
          → or_no_options (
              if b
              then some (
                  or_no_options (Dict.get l.options_by_key row.key)
                  ++ option_of row.option_label (some value))
              else Dict.get l.options_by_key k)
            ≡ or_no_options (Dict.get l.options_by_key k)
              ++ (if b then option_of row.option_label (some value) else [])
      split true e =
          ap
            (λ j.
              or_no_options (Dict.get l.options_by_key j)
              ++ option_of row.option_label (some value))
            (own e)
      split false e = sym (append_nil _)

  add_option-definitions :
      (l : Loaded) (row : Row F) (value : Option String)
      → (add_option l row value).definitions_by_key ≡ l.definitions_by_key
  add_option-definitions l row none = refl
  add_option-definitions l row (some value) = refl

  load_row-IsStep :
      (l : Loaded) (row : Row F) (l' : Loaded) → load_row l row ≡ returned l' → IsStep l row l'
  load_row-IsStep l row l' h =
      let (m, e0, e1) = then_do-eq-returned _ (define l row) h in
      let x = define-IsDefined l row m e0 in
      subst (IsStep l row) (returned_inj (add_option m row row.option_value) l' e1) (record {
        keyed =
            λ k. subst IsKeyed (sym (add_option-definitions m row row.option_value)) (x.keyed k);
        options = λ k.
            add_option-options m row row.option_value k
            ∙ ap
                (λ o.
                  or_no_options (Dict.get o k)
                  ++ (if row.key == k then option_of row.option_label row.option_value else []))
                x.options;
      })

  pub record AreSteps (l : Loaded) (rows : List (Row F)) (l' : Loaded) : Type 0 where
    pub keyed : IsKeyed l.definitions_by_key → IsKeyed l'.definitions_by_key
    pub options :
        (k : String)
        → or_no_options (Dict.get l'.options_by_key k)
          ≡ or_no_options (Dict.get l.options_by_key k) ++ options_in rows k

  pub load_rows-AreSteps :
      (rows : List (Row F)) (l l' : Loaded) → load_rows l rows ≡ returned l' → AreSteps l rows l'
  load_rows-AreSteps [] l l' h =
      subst (AreSteps l []) (returned_inj l l' h)
        (record { keyed = λ k. k; options = λ k. sym (append_nil _) })
  load_rows-AreSteps (row ∷ rows) l l' h =
      let (m, e0, e1) = then_do-eq-returned (λ l. load_rows l rows) (load_row l row) h in
      let x = load_row-IsStep l row m e0 in
      let y = load_rows-AreSteps rows m l' e1 in
      record {
        keyed = λ k. y.keyed (x.keyed k);
        options = λ k.
            y.options k
            ∙ ap (λ r. r ++ options_in rows k) (x.options k)
            ∙ append_assoc (or_no_options (Dict.get l.options_by_key k)) _ (options_in rows k);
      }
