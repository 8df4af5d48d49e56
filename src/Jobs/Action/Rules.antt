-- ===== src/Jobs/Action/Rules.antt =====
-- Rules for what an action does to the settlement of the message at hand, one for each way to
-- build an action.
use exobrain.Prelude.{
  ℕ, ◌+◌, String, ◌≡◌, refl, ◌∙◌, subst, Bool, true, false, Option, none, some, List, [], ◌∷◌, ◌++◌,
  arith, if◌then◌else◌,
}
use exobrain.Prelude.Result.{Result, ok, raised}
use exobrain.Jobs.Action.{
  World, Action, Settlement, pure, query, answer, handle, try_except, continue, ◌>>=◌,
}

-- The action settles nothing, whether it returns or raises.
pub record IsQuiet {P A : Type 0} (m : Action P A) : Type 0 where
  pub at : (w : World P) → (m w).1.settled ≡ w.settled

module _ {P A : Type 0} where
  -- A run that returned has settled the message once, in a way that `Allowed` admits; one that
  -- raised has not settled it.
  abbrev pub Settled : (Settlement → Type 0) → List Settlement → Result A → World P → Type 0
  Settled Allowed before (ok a) w = (s : Settlement) × Allowed s × (w.settled ≡ before ++ s ∷ [])
  Settled Allowed before (raised e) w = w.settled ≡ before

  pub record Settles (Allowed : Settlement → Type 0) (m : Action P A) : Type 0 where
    pub at : (w : World P) → Settled Allowed w.settled (m w).0 (m w).1

  pub IsQuiet-pure : (a : A) → IsQuiet {P = P} (pure a)
  unfolding pure
  IsQuiet-pure a = record { at = λ w. refl }

  pub IsQuiet-query :
      (fault : ℕ → Option String) (effect : World P → A × World P)
      → ((w : World P) → (effect w).1.settled ≡ w.settled)
      → IsQuiet (query fault effect)
  unfolding query
  IsQuiet-query fault effect h = record {
    at = λ w. ground (arith, h (record w { calls = w.calls + 1 }));
  }

  pub Settles-query :
      (Allowed : Settlement → Type 0) (fault : ℕ → Option String) (effect : World P → A × World P)
      (s : Settlement)
      → Allowed s
      → ((w : World P) → (effect w).1.settled ≡ w.settled ++ s ∷ [])
      → Settles Allowed (query fault effect)
  unfolding query
  Settles-query Allowed fault effect s allowed h = record { at = λ w. by_fault w (fault w.calls) }
    where
      by_fault :
          (w : World P) (o : Option String)
          → let w' = record w { calls = w.calls + 1 } in
            Settled Allowed w.settled (answer o (effect w') w').0 (answer o (effect w') w').1
      by_fault w none = (s, allowed, h (record w { calls = w.calls + 1 }))
      by_fault w (some e) = refl

  pub IsQuiet-try_except :
      (m : Action P A) (h : String → Action P A)
      → IsQuiet m
      → ((e : String) → IsQuiet (h e))
      → IsQuiet (try_except m h)
  unfolding try_except
  IsQuiet-try_except m h qm qh = record { at = λ w. handled (m w).0 (m w).1 ∙ qm.at w }
    where
      handled : (r : Result A) (w : World P) → (handle r h w).1.settled ≡ w.settled
      handled (ok a) w = refl
      handled (raised e) w = (qh e).at w

  pub Settles-try_except :
      (Allowed : Settlement → Type 0) (m : Action P A) (h : String → Action P A)
      → Settles Allowed m
      → ((e : String) → Settles Allowed (h e))
      → Settles Allowed (try_except m h)
  unfolding try_except
  Settles-try_except Allowed m h sm sh = record {
    at = λ w. handled w.settled (m w).0 (m w).1 (sm.at w);
  }
    where
      handled :
          (before : List Settlement) (r : Result A) (w : World P)
          → Settled Allowed before r w
          → Settled Allowed before (handle r h w).0 (handle r h w).1
      handled before (ok a) w s = s
      handled before (raised e) w s =
          subst (λ l. Settled Allowed l (h e w).0 (h e w).1) s ((sh e).at w)

  pub Settles-if :
      (Allowed : Settlement → Type 0) (b : Bool) (m n : Action P A)
      → (b ≡ true → Settles Allowed m)
      → (b ≡ false → Settles Allowed n)
      → Settles Allowed (if b then m else n)
  Settles-if Allowed true m n sm sn = sm refl
  Settles-if Allowed false m n sm sn = sn refl

module _ {P A B : Type 0} where
  pub IsQuiet-bind :
      (m : Action P A) (f : A → Action P B)
      → IsQuiet m
      → ((a : A) → IsQuiet (f a))
      → IsQuiet (m >>= f)
  unfolding ◌>>=◌
  IsQuiet-bind m f qm qf = record { at = λ w. continued (m w).0 (m w).1 ∙ qm.at w }
    where
      continued : (r : Result A) (w : World P) → (continue r f w).1.settled ≡ w.settled
      continued (ok a) w = (qf a).at w
      continued (raised e) w = refl

  pub Settles-bind :
      (Allowed : Settlement → Type 0) (m : Action P A) (f : A → Action P B)
      → IsQuiet m
      → ((a : A) → Settles Allowed (f a))
      → Settles Allowed (m >>= f)
  unfolding ◌>>=◌
  Settles-bind Allowed m f qm sf = record {
    at = λ w.
        subst (λ l. Settled Allowed l (continue (m w).0 f (m w).1).0 (continue (m w).0 f (m w).1).1)
          (qm.at w) (continued (m w).0 (m w).1);
  }
    where
      continued :
          (r : Result A) (w : World P)
          → Settled Allowed w.settled (continue r f w).0 (continue r f w).1
      continued (ok a) w = (sf a).at w
      continued (raised e) w = refl

pub ruleset quiet_rules = (IsQuiet-pure, IsQuiet-query, IsQuiet-try_except, IsQuiet-bind)
