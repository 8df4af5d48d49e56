-- ===== src/Prelude/Json.antt =====
-- The values of a decoded JSON document, as Python holds them. `F` is the type of the floats.
use Prim.Native.Nat.{ℕ}
use Prim.Native.String.{String}
use mathlib.Core.Path.{◌≡◌, refl, ap}
use mathlib.Core.Bool.{Bool}
use mathlib.Core.Option.{Option, none, some}
use mathlib.Core.List.{List, [], ◌∷◌}

-- Python's `int`; `negsuc n` is -(n + 1).
pub data ℤ : Type 0 where
  pos : ℕ → ℤ
  negsuc : ℕ → ℤ

mutual
  pub data Json (F : Type 0) : Type 0 where
    null : Json F
    bool : Bool → Json F
    int : ℤ → Json F
    float : F → Json F
    text : String → Json F
    array : Items F → Json F
    object : Fields F → Json F

  pub data Items (F : Type 0) : Type 0 where
    nil : Items F
    cons : Json F → Items F → Items F

  pub data Fields (F : Type 0) : Type 0 where
    end : Fields F
    field : String → Json F → Fields F → Fields F

module _ {F : Type 0} where
  abbrev pub items : Items F → List (Json F)
  items nil = []
  items (cons v r) = v ∷ items r

  abbrev pub entries : Fields F → List (String × Json F)
  entries end = []
  entries (field k v r) = (k, v) ∷ entries r

  abbrev items_of : List (Json F) → Items F
  items_of [] = nil
  items_of (v ∷ r) = cons v (items_of r)

  abbrev fields_of : List (String × Json F) → Fields F
  fields_of [] = end
  fields_of ((k, v) ∷ r) = field k v (fields_of r)

  -- A Python list, and a Python dict, as a value.
  abbrev pub list : List (Json F) → Json F
  list xs = array (items_of xs)

  abbrev pub dict : List (String × Json F) → Json F
  dict d = object (fields_of d)

  pub items-items_of : (xs : List (Json F)) → items (items_of xs) ≡ xs
  items-items_of [] = refl
  items-items_of (x ∷ xs) = ap (λ r. x ∷ r) (items-items_of xs)

  pub entries-fields_of : (d : List (String × Json F)) → entries (fields_of d) ≡ d
  entries-fields_of [] = refl
  entries-fields_of ((k, v) ∷ d) = ap (λ r. (k, v) ∷ r) (entries-fields_of d)

  -- isinstance(value, str), (value, dict), (value, list), with the value that the test gives
  abbrev pub as_text : Option (Json F) → Option String
  as_text (some (text s)) = some s
  as_text _ = none

  abbrev pub as_dict : Option (Json F) → Option (List (String × Json F))
  as_dict (some (object d)) = some (entries d)
  as_dict _ = none

  abbrev pub as_list : Option (Json F) → Option (List (Json F))
  as_list (some (array xs)) = some (items xs)
  as_list _ = none
