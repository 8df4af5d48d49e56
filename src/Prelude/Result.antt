-- ===== src/Prelude/Result.antt =====
-- Python's exceptions as values: `raised` carries what `str(exc)` gives.
use Prim.Native.String.{String}
use mathlib.Core.Path.{◌≡◌, refl}

pub data Result {ℓ} (R : Type ℓ) : Type ℓ where
  raised : String → Result R
  ok : R → Result R

module _ {ℓ κ} {R : Type ℓ} {S : Type κ} where
  infixl 5 ◌>>=◌
  abbrev pub ◌>>=◌ : Result R → (R → Result S) → Result S
  raised exc >>= then = raised exc
  ok returned >>= then = then returned

  -- A block that returned: its first call returned, and then the rest of it did.
  pub >>=-eq-ok :
      (first : Result R) (then : R → Result S) {s : S}
      → (first >>= then) ≡ ok s
      → (r : R) × (first ≡ ok r) × (then r ≡ ok s)
  >>=-eq-ok (raised exc) then e = cc
  >>=-eq-ok (ok r) then e = (r, refl, e)

infixl 5 ◌>>◌
abbrev pub ◌>>◌ {ℓ} : {S : Type ℓ} → Result (Unit {0}) → Result S → Result S
statement >> rest = statement >>= λ returned. rest
