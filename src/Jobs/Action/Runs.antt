-- ===== src/Jobs/Action/Runs.antt =====
-- What an action computes to, one equation for each way to build it, by the outcome of its calls.
use exobrain.Prelude.{ℕ, ◌+◌, String, ◌≡◌, ap, Option, none, some}
use exobrain.Prelude.Result.{ok, raised}
use exobrain.Jobs.Action.{World, Action, query, handle, try_except, continue, ◌>>=◌}

module _ {P : Type 0} where
  abbrev pub called : World P → World P
  called w = record w { calls = w.calls + 1 }

module _ {P A : Type 0} (fault : ℕ → Option String) (effect : World P → A × World P) where
  pub query_ok :
      ((n : ℕ) → fault n ≡ none)
      → (w : World P) → query fault effect w ≡ (ok (effect (called w)).0, (effect (called w)).1)
  unfolding query
  query_ok h w = rw (h w.calls)

  pub query_raised :
      (e : String)
      → ((n : ℕ) → fault n ≡ some e)
      → (w : World P) → query fault effect w ≡ (raised e, called w)
  unfolding query
  query_raised e h w = rw (h w.calls)

module _ {P A : Type 0} (m : Action P A) where
  pub try_except_ok :
      {w w' : World P} {a : A} (h : String → Action P A)
      → m w ≡ (ok a, w')
      → try_except m h w ≡ (ok a, w')
  unfolding try_except
  try_except_ok h e = ap (λ r. handle r.0 h r.1) e

  pub try_except_raised :
      {w w' : World P} {x : String} (h : String → Action P A)
      → m w ≡ (raised x, w')
      → try_except m h w ≡ h x w'
  unfolding try_except
  try_except_raised h e = ap (λ r. handle r.0 h r.1) e

module _ {P A B : Type 0} (m : Action P A) where
  pub bind_ok :
      {w w' : World P} {a : A} (f : A → Action P B) → m w ≡ (ok a, w') → (m >>= f) w ≡ f a w'
  unfolding ◌>>=◌
  bind_ok f e = ap (λ r. continue r.0 f r.1) e

  pub bind_raised :
      {w w' : World P} {x : String} (f : A → Action P B)
      → m w ≡ (raised x, w')
      → (m >>= f) w ≡ (raised x, w')
  unfolding ◌>>=◌
  bind_raised f e = ap (λ r. continue r.0 f r.1) e

module _ {P A B : Type 0} (fault : ℕ → Option String) (effect : World P → A × World P) where
  pub bind-query_ok :
      ((n : ℕ) → fault n ≡ none)
      → (f : A → Action P B) (w : World P)
      → (query fault effect >>= f) w ≡ f (effect (called w)).0 (effect (called w)).1
  bind-query_ok h f w = bind_ok _ f (query_ok fault effect h w)
