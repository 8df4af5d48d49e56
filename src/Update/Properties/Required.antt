-- ===== src/Update/Properties/Required.antt =====
-- The keys that a context requires and those that the properties give, told apart from the code that
-- collects them.
use exobrain.Prelude.{
  String, ◌≡◌, ◌⊎◌, inl, inr, refl, sym, ◌∙◌, ap, true, false, Option, none, some, List, [], ◌∷◌,
  ◌==◌, arith, eq_iff, eq_refl, All, Bool-cases, subst,
}
use exobrain.Prelude.Dict
use exobrain.Prelude.Json.{Json, null, bool, int, float, text, array, object, entries}
use exobrain.Prelude.Text.{contains}
use exobrain.Update.Properties.{
  JsonDict, non_empty_text, is_true, require, required_keys, provide, provided_keys,
}
use exobrain.Update.Properties.Writable.{
  IsWritable, IsWritable-IsShown, IsShown-IsWritable, non_empty_text-eq, is_true-eq,
}

module _ {F : Type 0} where
  -- One of the properties has the key.
  abbrev pub IsProvided : List (JsonDict F) → String → Type 0
  IsProvided [] key = ⊥
  IsProvided (p ∷ properties) key = (Dict.get p "key" ≡ some (text key)) ⊎ IsProvided properties key

  -- Each writable property of the context that says it is required has a key with `P`.
  abbrev pub AreRequired : (String → Type 0) → List (Json F) → Type 0
  AreRequired P [] = Unit
  AreRequired P (x ∷ cps) =
      ((key : String) (c : JsonDict F)
        → IsWritable key x c
        → Dict.get c "required" ≡ some (bool true)
        → P key)
      × AreRequired P cps

  provided_keys-IsProvided :
      (properties : List (JsonDict F)) (key : String)
      → contains (provided_keys properties) key ≡ true
      → IsProvided properties key
  unfolding provided_keys contains
  provided_keys-IsProvided [] key h = cc
  provided_keys-IsProvided (p ∷ properties) key h =
      by_name (non_empty_text (Dict.get p "key")) refl (provided_keys-IsProvided properties key) h
    where
      by_name :
          (o : Option String)
          → non_empty_text (Dict.get p "key") ≡ o
          → (contains (provided_keys properties) key ≡ true → IsProvided properties key)
          → contains (provide o (provided_keys properties)) key ≡ true
          → IsProvided (p ∷ properties) key
      by_name none e rest h = inr (rest h)
      by_name (some k) e rest h = elim (Bool-cases (k == key)) [
        | inl same ↦ inl (
            (non_empty_text-eq (Dict.get p "key") k e).0
            ∙ ap (λ s. some (text s)) ((eq_iff k key).0 same))
        | inr other ↦ inr (rest (ground arith))
      ]

  IsProvided-provided_keys :
      (properties : List (JsonDict F)) (key : String)
      → (key == "") ≡ false
      → IsProvided properties key
      → contains (provided_keys properties) key ≡ true
  unfolding provided_keys contains
  IsProvided-provided_keys [] key filled h = elim h [ ]
  IsProvided-provided_keys (p ∷ properties) key filled (inl e) =
      rw (e, filled) (ground (arith, eq_refl key))
  IsProvided-provided_keys (p ∷ properties) key filled (inr h) =
      later (non_empty_text (Dict.get p "key")) (IsProvided-provided_keys properties key filled h)
    where
      later :
          (o : Option String)
          → contains (provided_keys properties) key ≡ true
          → contains (provide o (provided_keys properties)) key ≡ true
      later none h = h
      later (some k) h = ground arith

  IsWritable-same :
      (k j : String) (x : Json F) (c c' : JsonDict F) → IsWritable k x c → IsWritable j x c' → k ≡ j
  IsWritable-same k j x c c' w v =
      let (d, e, same) = w.dict_of in
      let (d', e', same') = v.dict_of in let n = w.named in let m = v.named in cc

  -- What a property of the context adds to the required keys.
  abbrev added : Json F → List String → List String
  added (object d) required =
      require (non_empty_text (Dict.get (entries d) "prop_name")) (entries d) required
  added _ required = required

  -- The property is required and writable, and adds its key; or it is not, and adds none.
  data Adds (x : Json F) (required : List String) : Type 0 where
    adds :
        (k : String) (c : JsonDict F)
        → IsWritable k x c
        → Dict.get c "required" ≡ some (bool true)
        → added x required ≡ k ∷ required
        → Adds x required
    ignored :
        ((k : String) (c : JsonDict F)
          → IsWritable k x c
          → Dict.get c "required" ≡ some (bool true)
          → ⊥)
        → added x required ≡ required
        → Adds x required

  dict-Adds : (d : _) (required : List String) → Adds (object d) required
  dict-Adds d required = by_name (non_empty_text (Dict.get (entries d) "prop_name")) refl
    where
      by_name :
          (o : Option String)
          → non_empty_text (Dict.get (entries d) "prop_name") ≡ o
          → Adds (object d) required
      by_name none e =
          ignored (λ k c w r. let (same, s) = IsWritable-IsShown k d c w in let n = s.name in cc)
            (rw e refl)
      by_name (some k) e = elim (Bool-cases (is_true (Dict.get (entries d) "writable"))) [
        | inr unset ↦
            ignored (λ j c w r. let (same, s) = IsWritable-IsShown j d c w in let n = s.flag in cc)
              (rw (e, unset) refl)
        | inl set ↦ elim (Bool-cases (is_true (Dict.get (entries d) "required"))) [
          | inl needed ↦
              adds k (entries d) (IsShown-IsWritable k d (record { name = e; flag = set }))
                (is_true-eq _ needed) (rw (e, set, needed) refl)
          | inr optional ↦
              ignored
                (λ j c w r. let (same, s) = IsWritable-IsShown j d c w in unneeded same r optional)
                (rw (e, set, optional) refl)
        ]
      ]
        where
          unneeded :
              {c : JsonDict F}
              → entries d ≡ c
              → Dict.get c "required" ≡ some (bool true)
              → is_true (Dict.get (entries d) "required") ≡ false
              → ⊥
          unneeded e r n =
              let s : true ≡ false =
                sym (ap is_true r) ∙ ap (λ c. is_true (Dict.get c "required")) (sym e) ∙ n in
              cc

  all-Adds : (x : Json F) (required : List String) → Adds x required
  all-Adds null required = ignored (λ k c w r. let (d, e, same) = w.dict_of in cc) refl
  all-Adds (bool b) required = ignored (λ k c w r. let (d, e, same) = w.dict_of in cc) refl
  all-Adds (int n) required = ignored (λ k c w r. let (d, e, same) = w.dict_of in cc) refl
  all-Adds (float f) required = ignored (λ k c w r. let (d, e, same) = w.dict_of in cc) refl
  all-Adds (text s) required = ignored (λ k c w r. let (d, e, same) = w.dict_of in cc) refl
  all-Adds (array xs) required = ignored (λ k c w r. let (d, e, same) = w.dict_of in cc) refl
  all-Adds (object d) required = dict-Adds d required

  required_keys-cons :
      (x : Json F) (cps : List (Json F)) → required_keys (x ∷ cps) ≡ added x (required_keys cps)
  unfolding required_keys
  required_keys-cons null cps = refl
  required_keys-cons (bool b) cps = refl
  required_keys-cons (int n) cps = refl
  required_keys-cons (float f) cps = refl
  required_keys-cons (text s) cps = refl
  required_keys-cons (array xs) cps = refl
  required_keys-cons (object d) cps = refl

  pub All-AreRequired :
      (P : String → Type 0) (cps : List (Json F)) → All P (required_keys cps) → AreRequired P cps
  All-AreRequired P [] h = tt
  All-AreRequired P (x ∷ cps) h = elim (all-Adds x (required_keys cps)) [
    | adds k c w r e ↦
        let both : All P (k ∷ required_keys cps) = subst (All P) (required_keys-cons x cps ∙ e) h in
        (
          (λ j c' v r'. subst P (IsWritable-same k j x c c' w v) both.0),
          All-AreRequired P cps both.1,
        )
    | ignored free e ↦ (
      (λ j c' v r'. absurd (free j c' v r')),
      All-AreRequired P cps (subst (All P) (required_keys-cons x cps ∙ e) h),
    )
  ]

  pub AreRequired-All :
      (P : String → Type 0) (cps : List (Json F)) → AreRequired P cps → All P (required_keys cps)
  unfolding required_keys
  AreRequired-All P [] h = tt
  AreRequired-All P (x ∷ cps) h = elim (all-Adds x (required_keys cps)) [
    | adds k c w r e ↦
        subst (All P) (sym (required_keys-cons x cps ∙ e)) (h.0 k c w r, AreRequired-All P cps h.1)
    | ignored free e ↦
        subst (All P) (sym (required_keys-cons x cps ∙ e)) (AreRequired-All P cps h.1)
  ]

  -- Each writable property that is required has a key that the properties give.
  abbrev pub IsComplete : List (JsonDict F) → List (Json F) → Type 0
  IsComplete properties cps = AreRequired (IsProvided properties) cps

  AreRequired-map :
      (P Q : String → Type 0) (cps : List (Json F))
      → ((key : String) → (key == "") ≡ false → P key → Q key)
      → AreRequired P cps
      → AreRequired Q cps
  AreRequired-map P Q [] f h = tt
  AreRequired-map P Q (x ∷ cps) f h =
      ((λ key c w r. f key w.filled (h.0 key c w r)), AreRequired-map P Q cps f h.1)

  pub provided-IsComplete :
      (properties : List (JsonDict F)) (cps : List (Json F))
      → All (λ key. contains (provided_keys properties) key ≡ true) (required_keys cps)
      → IsComplete properties cps
  provided-IsComplete properties cps h =
      AreRequired-map _ _ cps (λ key filled. provided_keys-IsProvided properties key)
        (All-AreRequired _ cps h)

  pub IsComplete-provided :
      (properties : List (JsonDict F)) (cps : List (Json F))
      → IsComplete properties cps
      → All (λ key. contains (provided_keys properties) key ≡ true) (required_keys cps)
  IsComplete-provided properties cps h =
      AreRequired-All _ cps (AreRequired-map _ _ cps (IsProvided-provided_keys properties) h)
