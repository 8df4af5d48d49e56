-- ===== src/Update/Properties/Values.antt =====
-- The values that step nine writes, against the fields that are read back.
use exobrain.Prelude.{
  ℕ, String, ◌≡◌, ◌≢◌, refl, true, false, Option, none, some, List, [], ◌∷◌, arith, subst, ◌==◌,
  ◌⊎◌, inl, inr, Bool-cases,
}
use exobrain.Prelude.Dict
use exobrain.Prelude.Json.{Json, null, bool, int, float, text, array, object}
use exobrain.Prelude.Text.{codes, contains, strip, lower, one_of, same_codes}
use exobrain.Update.Properties.{
  JsonDict, wrong_type, extract_property_value_field, to_property_value_dict,
  is_value_type_compatible, property_issue, non_empty_text,
}

module _ {F : Type 0} where
  -- The one field that holds a value.
  abbrev pub field_of : Json F → Option String
  field_of null = none
  field_of (bool b) = some "bool_value"
  field_of (int n) = some "int_value"
  field_of (float x) = some "float_value"
  field_of (text s) = some "string_value"
  field_of (array xs) = some "json_value"
  field_of (object d) = some "json_value"

  -- The property that is built from a value: none without a field for it; else one that carries its
  -- key, and sets this field only.
  abbrev pub IsPropertyOf : String → Json F → Option (JsonDict F) → Type 0
  IsPropertyOf key v none = field_of v ≡ none
  IsPropertyOf key v (some p) =
      (Dict.get p "key" ≡ some (text key))
      × (extract_property_value_field p ≡ field_of v)
      × (field_of v ≢ none)

  to_property_value_dict-IsPropertyOf :
      (json_dumps : Json F → String) (key : String) (v : Json F)
      → IsPropertyOf key v (to_property_value_dict json_dumps key v)
  unfolding to_property_value_dict extract_property_value_field Dict.get Dict.has
  to_property_value_dict-IsPropertyOf json_dumps key null = refl
  to_property_value_dict-IsPropertyOf json_dumps key (bool b) = (refl, refl, λ e. cc)
  to_property_value_dict-IsPropertyOf json_dumps key (int n) = (refl, refl, λ e. cc)
  to_property_value_dict-IsPropertyOf json_dumps key (float x) = (refl, refl, λ e. cc)
  to_property_value_dict-IsPropertyOf json_dumps key (text s) = (refl, refl, λ e. cc)
  to_property_value_dict-IsPropertyOf json_dumps key (array xs) = (refl, refl, λ e. cc)
  to_property_value_dict-IsPropertyOf json_dumps key (object d) = (refl, refl, λ e. cc)

same_codes-eq : (s t : List ℕ) → same_codes s t ≡ true → s ≡ t
unfolding same_codes
same_codes-eq [] [] h = refl
same_codes-eq [] (d ∷ t) h = cc
same_codes-eq (c ∷ s) [] h = cc
same_codes-eq (c ∷ s) (d ∷ t) h = ground (arith, same_codes-eq s t)

abbrev pub date_types : List String
date_types = "datetime" ∷ "timestamp" ∷ "date" ∷ []

date_type-codes :
    (s : List ℕ)
    → one_of s date_types ≡ true
    → (s ≡ codes "datetime") ⊎ ((s ≡ codes "timestamp") ⊎ (s ≡ codes "date"))
unfolding one_of
date_type-codes s h = elim (Bool-cases (same_codes s (codes "datetime"))) [
  | inl e ↦ inl (same_codes-eq s _ e)
  | inr n ↦ elim (Bool-cases (same_codes s (codes "timestamp"))) [
    | inl e ↦ inr (inl (same_codes-eq s _ e))
    | inr m ↦ inr (inr (same_codes-eq s _ (ground arith)))
  ]
]

-- A value type that names a date is compatible with the field for dates only.
date_type-compatible :
    (t f : String)
    → one_of (lower (strip (codes t))) date_types ≡ true
    → is_value_type_compatible t f ≡ contains ("datetime_value" ∷ []) f
unfolding is_value_type_compatible one_of lower strip
date_type-compatible t f h = elim (date_type-codes (lower (strip (codes t))) h) [
  | inl e ↦ rw e refl
  | inr (inl e) ↦ rw e refl
  | inr (inr e) ↦ rw e refl
]

-- None of the fields that values are written to is the field for dates.
field_of-date :
    {F : Type 0} (v : Json F)
    → (field_of v ≡ none)
      ⊎ ((f : String) × (field_of v ≡ some f) × (contains ("datetime_value" ∷ []) f ≡ false))
unfolding contains
field_of-date null = inl refl
field_of-date (bool b) = inr ("bool_value", refl, refl)
field_of-date (int n) = inr ("int_value", refl, refl)
field_of-date (float x) = inr ("float_value", refl, refl)
field_of-date (text s) = inr ("string_value", refl, refl)
field_of-date (array xs) = inr ("json_value", refl, refl)
field_of-date (object d) = inr ("json_value", refl, refl)

module _ {F : Type 0} (json_dumps : Json F → String) where
  refused :
      (writable : List (String × JsonDict F)) (i : ℕ) (key : String) (v : Json F)
      (p context : JsonDict F) (t : String)
      → IsPropertyOf key v (some p)
      → (key == "") ≡ false
      → Dict.get writable key ≡ some context
      → non_empty_text (Dict.get context "value_type") ≡ some t
      → one_of (lower (strip (codes t))) date_types ≡ true
      → (f : String) × (property_issue writable i p ≡ some (wrong_type key t f))
  unfolding property_issue
  refused writable i key v p context t (k, e, filled) named found typed date =
      elim (field_of-date v) [
        | inl none_set ↦ absurd (filled none_set)
        | inr (f, set, other) ↦
            (f, rw (k, named, found, e, set, typed, date_type-compatible t f date, other) refl)
      ]

  -- A property with a key that is built from a value is refused wherever the context has this key
  -- as writable with a value type that names a date: there is no value that is written to the
  -- field for dates.
  pub date_property-refused :
      (writable : List (String × JsonDict F)) (i : ℕ) (key : String) (v : Json F)
      (p context : JsonDict F) (t : String)
      → to_property_value_dict json_dumps key v ≡ some p
      → (key == "") ≡ false
      → Dict.get writable key ≡ some context
      → non_empty_text (Dict.get context "value_type") ≡ some t
      → one_of (lower (strip (codes t))) date_types ≡ true
      → (f : String) × (property_issue writable i p ≡ some (wrong_type key t f))
  date_property-refused writable i key v p context t built =
      refused writable i key v p context t
        (subst (IsPropertyOf key v) built (to_property_value_dict-IsPropertyOf json_dumps key v))
