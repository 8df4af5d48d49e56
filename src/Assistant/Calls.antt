-- ===== src/Assistant/Calls.antt =====
-- A coroutine of the assistant backend as a function of the state that it acts on: it returns, or it
-- raises an exception of the type `E`.
use exobrain.Prelude.{String, Option, none, some}

pub data Answer (E A : Type 0) : Type 0 where
  returned : A → Answer E A
  failed : E → Answer E A

abbrev pub Call : Type 0 → Type 0 → Type 0 → Type 0
Call W E A = W → Answer E A × W

module _ {W E A : Type 0} where
  abbrev pub return : A → Call W E A
  return a w = (returned a, w)

  abbrev pub raise : E → Call W E A
  raise e w = (failed e, w)

  -- An exception of a library, if there is one.
  abbrev pub raise_some : (String → E) → Option String → Call W E A → Call W E A
  raise_some e none rest w = rest w
  raise_some e (some exc) rest w = (failed (e exc), w)

module _ {W E A B : Type 0} where
  abbrev pub continue : (A → Call W E B) → Answer E A × W → Answer E B × W
  continue f (returned a, w) = f a w
  continue f (failed e, w) = (failed e, w)

  infixl 10 ◌>>=◌ ◌>>◌
  unfoldable pub ◌>>=◌ : Call W E A → (A → Call W E B) → Call W E B
  ◌>>=◌ m f w = continue f (m w)

  abbrev pub ◌>>◌ : Call W E A → Call W E B → Call W E B
  m >> n = m >>= λ _. n
