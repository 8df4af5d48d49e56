-- ===== src/Update/Properties/Writable.antt =====
-- The writable properties of a type's context, told apart from the code that collects them.
use exobrain.Prelude.{
  String, ◌≡◌, ◌⊎◌, inl, inr, refl, sym, ◌∙◌, ap, true, false, Option, none, some, List, [], ◌∷◌,
  ◌==◌, arith, eq_iff, Bool-cases, if_ind, subst,
}
use exobrain.Prelude.Dict
use exobrain.Prelude.Json.{Json, null, bool, int, float, text, array, object, entries}
use exobrain.Update.Properties.{JsonDict, non_empty_text, is_true, collect, writable_contexts}

module _ {F : Type 0} where
  -- `c` is the dict `x`, it names `key`, which is not empty, and says that it is writable.
  pub record IsWritable (key : String) (x : Json F) (c : JsonDict F) : Type 0 where
    pub dict_of : (d : _) × (x ≡ object d) × (entries d ≡ c)
    pub named : Dict.get c "prop_name" ≡ some (text key)
    pub filled : (key == "") ≡ false
    pub writable : Dict.get c "writable" ≡ some (bool true)

  -- `c` is the last writable property of that key in the list.
  abbrev pub IsLastWritable : List (Json F) → String → JsonDict F → Type 0
  IsLastWritable [] key c = ⊥
  IsLastWritable (x ∷ cps) key c =
      IsLastWritable cps key c
      ⊎ (IsWritable key x c × ((c' : JsonDict F) → IsLastWritable cps key c' → ⊥))

  pub non_empty_text-eq :
      (o : Option (Json F)) (s : String)
      → non_empty_text o ≡ some s
      → (o ≡ some (text s)) × ((s == "") ≡ false)
  non_empty_text-eq none s h = absurd (cc)
  non_empty_text-eq (some null) s h = absurd (cc)
  non_empty_text-eq (some (bool b)) s h = absurd (cc)
  non_empty_text-eq (some (int n)) s h = absurd (cc)
  non_empty_text-eq (some (float x)) s h = absurd (cc)
  non_empty_text-eq (some (array xs)) s h = absurd (cc)
  non_empty_text-eq (some (object d)) s h = absurd (cc)
  non_empty_text-eq (some (text t)) s h =
      if_ind
        (λ (o : Option String).
          o ≡ some s
          → (Path (Option (Json F)) (some (text t)) (some (text s))) × ((s == "") ≡ false))
        (t == "") (λ empty e. absurd (cc))
        (λ filled e.
          let same : t ≡ s = cc in
          (ap (λ u. some (text u)) same, subst (λ u. (u == "") ≡ false) same filled))
        h

  pub is_true-eq : (o : Option (Json F)) → is_true o ≡ true → o ≡ some (bool true)
  is_true-eq none h = absurd (cc)
  is_true-eq (some null) h = absurd (cc)
  is_true-eq (some (bool b)) h = ap (λ b. some (bool b)) h
  is_true-eq (some (int n)) h = absurd (cc)
  is_true-eq (some (float x)) h = absurd (cc)
  is_true-eq (some (array xs)) h = absurd (cc)
  is_true-eq (some (object d)) h = absurd (cc)
  is_true-eq (some (text t)) h = absurd (cc)

  -- What a dict of that key shows to the code.
  pub record IsShown (key : String) (d : JsonDict F) : Type 0 where
    pub name : non_empty_text (Dict.get d "prop_name") ≡ some key
    pub flag : is_true (Dict.get d "writable") ≡ true

  pub IsWritable-IsShown :
      (key : String) (d : _) (c : JsonDict F)
      → IsWritable key (object d) c
      → (entries d ≡ c) × IsShown key c
  IsWritable-IsShown key d c w =
      let (e, same, is) = w.dict_of in
      (cc, record { name = rw (w.named, w.filled) refl; flag = rw w.writable refl })

  pub IsShown-IsWritable :
      (key : String) (d : _) → IsShown key (entries d) → IsWritable key (object d) (entries d)
  IsShown-IsWritable key d s =
      let (named, filled) = non_empty_text-eq _ key s.name in
      record {
        dict_of = (d, refl, refl);
        named = named;
        filled = filled;
        writable = is_true-eq _ s.flag;
      }

  -- What the loop over the context has after one more of its properties.
  abbrev next : List (String × JsonDict F) → Json F → List (String × JsonDict F)
  next acc (object d) = collect acc (non_empty_text (Dict.get (entries d) "prop_name")) (entries d)
  next acc _ = acc

  writable_contexts-cons :
      (acc : List (String × JsonDict F)) (x : Json F) (cps : List (Json F))
      → writable_contexts acc (x ∷ cps) ≡ writable_contexts (next acc x) cps
  unfolding writable_contexts
  writable_contexts-cons acc null cps = refl
  writable_contexts-cons acc (bool b) cps = refl
  writable_contexts-cons acc (int n) cps = refl
  writable_contexts-cons acc (float x) cps = refl
  writable_contexts-cons acc (text s) cps = refl
  writable_contexts-cons acc (array xs) cps = refl
  writable_contexts-cons acc (object d) cps = refl

  -- The property is the writable one of the key, or leaves what the key has.
  IsTaken : List (String × JsonDict F) → Json F → String → Type 0
  IsTaken acc x key =
      ((c : JsonDict F) × IsWritable key x c × (Dict.get (next acc x) key ≡ some c))
      ⊎ (((c : JsonDict F) → IsWritable key x c → ⊥)
          × (Dict.get (next acc x) key ≡ Dict.get acc key))

  other_shape :
      (acc : List (String × JsonDict F)) (x : Json F) (key : String)
      → ((d : _) → x ≡ object d → ⊥)
      → Dict.get (next acc x) key ≡ Dict.get acc key
      → IsTaken acc x key
  unfolding IsTaken
  other_shape acc x key other same = inr ((λ c w. other w.dict_of.0 w.dict_of.1), same)

  collected : (acc : List (String × JsonDict F)) (d : _) (key : String) → IsTaken acc (object d) key
  unfolding IsTaken
  collected acc d key = by_name (non_empty_text (Dict.get (entries d) "prop_name")) refl
    where
      shown : (c : JsonDict F) → IsWritable key (object d) c → IsShown key (entries d)
      shown c w = let (e, s) = IsWritable-IsShown key d c w in subst (IsShown key) (sym e) s

      by_name :
          (o : Option String)
          → non_empty_text (Dict.get (entries d) "prop_name") ≡ o
          → ((c : JsonDict F) × IsWritable key (object d) c
              × (Dict.get (collect acc o (entries d)) key ≡ some c))
            ⊎ (((c : JsonDict F) → IsWritable key (object d) c → ⊥)
                × (Dict.get (collect acc o (entries d)) key ≡ Dict.get acc key))
      by_name none e = inr ((λ c w. let n = (shown c w).name in absurd (cc)), refl)
      by_name (some k) e = elim (Bool-cases (is_true (Dict.get (entries d) "writable"))) [
        | inr unset ↦ inr ((λ c w. let n = (shown c w).flag in absurd (cc)), rw unset refl)
        | inl set ↦ elim (Bool-cases (k == key)) [
          | inl same ↦ inl (
            entries d,
            IsShown-IsWritable key d
                (record { name = e ∙ ap some ((eq_iff k key).0 same); flag = set }),
            rw set (Dict.get-put acc k (entries d) key ∙ rw same refl),
          )
          | inr other ↦ inr (
            (λ c w. different other ((shown c w).name) e),
            rw set (Dict.get-put acc k (entries d) key ∙ rw other refl),
          )
        ]
      ]
        where
          different :
              (k == key) ≡ false
              → non_empty_text (Dict.get (entries d) "prop_name") ≡ some key
              → non_empty_text (Dict.get (entries d) "prop_name") ≡ some k
              → ⊥
          different other n e = let same : k ≡ key = cc in ground (arith, eq_iff k key)

  next-IsTaken : (acc : List (String × JsonDict F)) (x : Json F) (key : String) → IsTaken acc x key
  next-IsTaken acc null key = other_shape acc null key (λ d e. cc) refl
  next-IsTaken acc (bool b) key = other_shape acc (bool b) key (λ d e. cc) refl
  next-IsTaken acc (int n) key = other_shape acc (int n) key (λ d e. cc) refl
  next-IsTaken acc (float x) key = other_shape acc (float x) key (λ d e. cc) refl
  next-IsTaken acc (text s) key = other_shape acc (text s) key (λ d e. cc) refl
  next-IsTaken acc (array xs) key = other_shape acc (array xs) key (λ d e. cc) refl
  next-IsTaken acc (object d) key = collected acc d key

  NoneWritable : List (Json F) → String → Type 0
  NoneWritable cps key = (c : JsonDict F) → IsLastWritable cps key c → ⊥

  unlisted :
      (acc : List (String × JsonDict F)) (cps : List (Json F)) (key : String)
      → NoneWritable cps key
      → Dict.get (writable_contexts acc cps) key ≡ Dict.get acc key
  unfolding writable_contexts NoneWritable IsTaken
  unlisted acc [] key free = refl
  unlisted acc (x ∷ cps) key free =
      ap (λ a. Dict.get a key) (writable_contexts-cons acc x cps)
      ∙ unlisted (next acc x) cps key (λ c l. free c (inl l))
      ∙ elim (next-IsTaken acc x key) [
        | inl (c, w, e) ↦ absurd (free c (inr (w, λ c' l. free c' (inl l))))
        | inr (_, e) ↦ e
      ]

  -- The last writable property of a key is what the loop has for it.
  pub IsLastWritable-get :
      (acc : List (String × JsonDict F)) (cps : List (Json F)) (key : String) (c : JsonDict F)
      → IsLastWritable cps key c
      → Dict.get (writable_contexts acc cps) key ≡ some c
  unfolding IsTaken NoneWritable
  IsLastWritable-get acc [] key c l = elim l [ ]
  IsLastWritable-get acc (x ∷ cps) key c (inl l) =
      ap (λ a. Dict.get a key) (writable_contexts-cons acc x cps)
      ∙ IsLastWritable-get (next acc x) cps key c l
  IsLastWritable-get acc (x ∷ cps) key c (inr (w, free)) =
      ap (λ a. Dict.get a key) (writable_contexts-cons acc x cps)
      ∙ unlisted (next acc x) cps key free
      ∙ elim (next-IsTaken acc x key) [
        | inl (c', w', e) ↦ e ∙ ap some (one_of_both w w')
        | inr (other, e) ↦ absurd (other c w)
      ]
    where
      one_of_both : {c' : JsonDict F} → IsWritable key x c → IsWritable key x c' → c' ≡ c
      one_of_both w w' = let (d, e, same) = w.dict_of in let (d', e', same') = w'.dict_of in cc

  get-IsLastWritable_or :
      (acc : List (String × JsonDict F)) (cps : List (Json F)) (key : String) (c : JsonDict F)
      → Dict.get (writable_contexts acc cps) key ≡ some c
      → IsLastWritable cps key c ⊎ (NoneWritable cps key × (Dict.get acc key ≡ some c))
  unfolding writable_contexts NoneWritable IsTaken
  get-IsLastWritable_or acc [] key c h = inr ((λ c l. l), h)
  get-IsLastWritable_or acc (x ∷ cps) key c h =
      elim (get-IsLastWritable_or (next acc x) cps key c
        (sym (ap (λ a. Dict.get a key) (writable_contexts-cons acc x cps)) ∙ h)) [
          | inl l ↦ inl (inl l)
          | inr (free, e) ↦ elim (next-IsTaken acc x key) [
            | inl (c', w, e') ↦
                let same : c' ≡ c = cc in inl (inr (subst (IsWritable key x) same w, free))
            | inr (other, e') ↦ inr (neither other free, sym e' ∙ e)
          ]
        ]
    where
      neither :
          ((c : JsonDict F) → IsWritable key x c → ⊥)
          → ((c : JsonDict F) → IsLastWritable cps key c → ⊥)
          → (c : JsonDict F) → IsLastWritable (x ∷ cps) key c
          → ⊥
      neither other free c (inl l) = free c l
      neither other free c (inr (w, _)) = other c w

  -- What the loop has for a key is the last writable property of it.
  pub get-IsLastWritable :
      (cps : List (Json F)) (key : String) (c : JsonDict F)
      → Dict.get (writable_contexts [] cps) key ≡ some c
      → IsLastWritable cps key c
  unfolding Dict.get NoneWritable
  get-IsLastWritable cps key c h = elim (get-IsLastWritable_or [] cps key c h) [
    | inl l ↦ l
    | inr (free, e) ↦ absurd (cc)
  ]
