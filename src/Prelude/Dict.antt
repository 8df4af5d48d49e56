-- ===== src/Prelude/Dict.antt =====
-- Python's `dict` with text keys, as the list of its entries in insertion order: an update in place
-- keeps the position of its key.
use Prim.Native.String.{String}
use mathlib.Core.Path.{◌≡◌, refl}
use mathlib.Core.Bool.{Bool, true, false}
use mathlib.Core.Option.{Option, none, some}
use mathlib.Core.List.{List, [], ◌∷◌}
use native.Mathlib.Omega.{arith}
use text.Mathlib.Text.{◌==◌}
use text.Mathlib.TextEquality.{eq_iff}
use mathlib.Core.Logic.{inl, inr}
use exobrain.Prelude.Tests.{if◌then◌else◌, Bool-cases}

module _ {ℓ} {V : Type ℓ} where
  -- d.get(k)
  unfoldable pub get : List (String × V) → String → Option V
  get [] k = none
  get ((j, v) ∷ d) k = if j == k then some v else get d k

  -- d[k] = v
  unfoldable pub put : List (String × V) → String → V → List (String × V)
  put [] k v = (k, v) ∷ []
  put ((j, w) ∷ d) k v = if j == k then (j, v) ∷ d else (j, w) ∷ put d k v

  -- del d[k], d.pop(k, None)
  unfoldable pub remove : List (String × V) → String → List (String × V)
  remove [] k = []
  remove ((j, v) ∷ d) k = let rest = remove d k in if j == k then rest else (j, v) ∷ rest

  -- k in d
  unfoldable pub has : List (String × V) → String → Bool
  has [] k = false
  has ((j, v) ∷ d) k = if j == k then true else has d k

  -- list(d)
  abbrev pub keys : List (String × V) → List String
  keys [] = []
  keys ((j, v) ∷ d) = j ∷ keys d

  pub get-put :
      (d : List (String × V)) (k : String) (v : V) (j : String)
      → get (put d k v) j ≡ (if k == j then some v else get d j)
  unfolding get put
  get-put [] k v j = refl
  get-put ((i, w) ∷ d) k v j = ground (arith, eq_iff k j, eq_iff i k, eq_iff i j, get-put d k v j)

  pub get-remove :
      (d : List (String × V)) (k j : String)
      → get (remove d k) j ≡ (if k == j then none else get d j)
  unfolding get remove
  get-remove [] k j = ground arith
  get-remove ((i, w) ∷ d) k j = ground (arith, eq_iff k j, eq_iff i k, eq_iff i j, get-remove d k j)

  pub has-put :
      (d : List (String × V)) (k : String) (v : V) (j : String)
      → has (put d k v) j ≡ (if k == j then true else has d j)
  unfolding has put
  has-put [] k v j = refl
  has-put ((i, w) ∷ d) k v j = ground (arith, eq_iff k j, eq_iff i k, eq_iff i j, has-put d k v j)

  pub has-get : (d : List (String × V)) (k : String) → has d k ≡ true → (v : V) × (get d k ≡ some v)
  unfolding has get
  has-get [] k h = absurd (no_entry h)
    where
      no_entry : false ≡ true → ⊥
      no_entry e = cc
  has-get ((j, v) ∷ d) k h = elim (Bool-cases (j == k)) [
    | inl same ↦ (v, rw same refl)
    | inr other ↦ let (w, e) = has-get d k (ground arith) in (w, rw other e)
  ]
