-- ===== src/Prelude/Text.antt =====
-- Python's `str`: the methods that the program calls.
use Prim.Native.Char.{Char, code}
use Prim.Native.Nat.{ℕ, zero, suc, ◌+◌}
use Prim.Native.String.{String, ◌++◌}
use mathlib.Core.Bool.{Bool, true, false, ◌&&◌, ◌||◌}
use mathlib.Core.Option.{Option, none, some}
use mathlib.Core.List.{List, [], ◌∷◌, map, reverse}
use mathlib.Core.Path.{◌≡◌, refl}
use native.Mathlib.Omega.{arith}
use text.Mathlib.Text.{◌==◌}
use text.Mathlib.TextEquality.{codes_equal}
use text.Mathlib.TextPositions.{compare_self}
use text.Mathlib.TextLemmas.{nil-append, cons-append}
use exobrain.Prelude.Tests.{leb, ltb, nat_eq, nat_eq_refl, if◌then◌else◌}
use exobrain.Prelude.Lists.{any_of}

-- The code points of a text. `String` has its own `[]` and `∷`.
abbrev pub codes : String → List ℕ
codes String.[] = []
codes (String.◌∷◌ c s) = code c ∷ codes s

abbrev chars : String → List Char
chars String.[] = []
chars (String.◌∷◌ c s) = c ∷ chars s

abbrev of_chars : List Char → String
of_chars [] = ""
of_chars (c ∷ s) = String.◌∷◌ c (of_chars s)

-- `k in xs` over texts
unfoldable pub contains : List String → String → Bool
contains [] k = false
contains (x ∷ xs) k = x == k || contains xs k

-- s.endswith(suffix)
unfoldable pub ends_with : String → String → Bool
ends_with String.[] suffix = "" == suffix
ends_with (String.◌∷◌ c s) suffix = String.◌∷◌ c s == suffix || ends_with s suffix

-- s[:n]
unfoldable pub clip : ℕ → String → String
clip zero s = ""
clip (suc n) String.[] = ""
clip (suc n) (String.◌∷◌ c s) = String.◌∷◌ c (clip n s)

-- An f-string: its parts, one after another.
abbrev pub concat : List String → String
concat [] = ""
concat (s ∷ parts) = s ++ concat parts

-- The code points that `str.isspace` accepts.
unfoldable pub is_space : ℕ → Bool
is_space c =
    (leb 9 c && leb c 13)
    || (leb 28 c && leb c 32)
    || nat_eq c 133
    || nat_eq c 160
    || nat_eq c 5760
    || (leb 8192 c && leb c 8202)
    || nat_eq c 8232
    || nat_eq c 8233
    || nat_eq c 8239
    || nat_eq c 8287
    || nat_eq c 12288

unfoldable pub strip_left : List ℕ → List ℕ
unfolding is_space
strip_left [] = []
strip_left (c ∷ s) = let rest = strip_left s in if is_space c then rest else c ∷ s

-- s.strip(), on code points
unfoldable pub strip : List ℕ → List ℕ
unfolding strip_left
strip s = reverse (strip_left (reverse (strip_left s)))

unfoldable pub strip_start : List Char → List Char
unfolding is_space
strip_start [] = []
strip_start (c ∷ s) = let rest = strip_start s in if is_space (code c) then rest else c ∷ s

-- s.strip()
unfoldable pub strip_text : String → String
unfolding strip_start
strip_text s = of_chars (reverse (strip_start (reverse (strip_start (chars s)))))

-- s.lower() and s.casefold(), where the result is compared with ASCII texts only: of the letters
-- that are not ASCII none folds to one of the texts that the program compares with.
unfoldable pub lower_code : ℕ → ℕ
lower_code c = if leb 65 c && leb c 90 then c + 32 else c

unfoldable pub lower : List ℕ → List ℕ
unfolding lower_code
lower s = map lower_code s

unfoldable pub same_codes : List ℕ → List ℕ → Bool
same_codes [] [] = true
same_codes [] (d ∷ t) = false
same_codes (c ∷ s) [] = false
same_codes (c ∷ s) (d ∷ t) = nat_eq c d && same_codes s t

-- `s in {…}` for a text that was lowered
unfoldable pub one_of : List ℕ → List String → Bool
unfolding same_codes
one_of s names = any_of (λ name. same_codes s (codes name)) names

or_true : (b : Bool) → (b || true) ≡ true
or_true true = refl
or_true false = refl

-- A text ends with every suffix of one of its own suffixes.
pub ends_with-append : (s t u : String) → ends_with t u ≡ true → ends_with (s ++ t) u ≡ true
unfolding ends_with
ends_with-append String.[] t u h = rw nil-append h
ends_with-append (String.◌∷◌ c s) t u h = rw cons-append (rw (ends_with-append s t u h) (or_true _))

-- What follows `prefix` in a text that begins with it.
unfoldable pub after_prefix : String → String → Option String
after_prefix String.[] s = some s
after_prefix (String.◌∷◌ c p) String.[] = none
after_prefix (String.◌∷◌ c p) (String.◌∷◌ d s) =
    let rest = after_prefix p s in if nat_eq (code c) (code d) then rest else none

abbrev is_found : Option String → Bool
is_found none = false
is_found (some s) = true

-- `part in s`
unfoldable pub includes : String → String → Bool
unfolding after_prefix
includes part String.[] = is_found (after_prefix part "")
includes part (String.◌∷◌ c s) = is_found (after_prefix part (String.◌∷◌ c s)) || includes part s

pub after_prefix-append : (p s : String) → after_prefix p (p ++ s) ≡ some s
unfolding after_prefix
after_prefix-append String.[] s = rw nil-append
after_prefix-append (String.◌∷◌ c p) s =
    rw cons-append (rw (nat_eq_refl (code c)) (after_prefix-append p s))

-- A text that begins with a part includes it.
pub includes-append : (p s : String) → includes p (p ++ s) ≡ true
unfolding includes
includes-append p s = at_start (p ++ s) (after_prefix-append p s)
  where
    at_start : (t : String) → after_prefix p t ≡ some s → includes p t ≡ true
    at_start String.[] h = rw h
    at_start (String.◌∷◌ c t) h = rw h

-- A text includes what one of its suffixes includes.
pub includes-append_right : (p s t : String) → includes p t ≡ true → includes p (s ++ t) ≡ true
unfolding includes
includes-append_right p String.[] t h = rw nil-append h
includes-append_right p (String.◌∷◌ c s) t h =
    rw cons-append (rw (includes-append_right p s t h) (or_true _))

-- `s <= t`: texts are ordered by their code points.
unfoldable pub text_le : String → String → Bool
text_le String.[] t = true
text_le (String.◌∷◌ c s) String.[] = false
text_le (String.◌∷◌ c s) (String.◌∷◌ d t) =
    let rest = text_le s t in
    if ltb (code c) (code d) then true else if nat_eq (code c) (code d) then rest else false

pub text_le_total : (s t : String) → text_le s t ≡ false → text_le t s ≡ true
unfolding text_le
text_le_total String.[] t h = cc
text_le_total (String.◌∷◌ c s) String.[] h = refl
text_le_total (String.◌∷◌ c s) (String.◌∷◌ d t) h = ground (arith, text_le_total s t)

pub text_le_antisymm : (s t : String) → text_le s t ≡ true → text_le t s ≡ true → s ≡ t
unfolding text_le
text_le_antisymm String.[] String.[] h k = refl
text_le_antisymm String.[] (String.◌∷◌ d t) h k = cc
text_le_antisymm (String.◌∷◌ c s) String.[] h k = cc
text_le_antisymm (String.◌∷◌ c s) (String.◌∷◌ d t) h k =
    let same_code : code c ≡ code d = ground arith in
    let same_char : c ≡ d = codes_equal c d (rw same_code (compare_self (code d))) in
    let same_rest : s ≡ t = text_le_antisymm s t (ground arith) (ground arith) in cc
