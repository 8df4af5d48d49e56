-- ===== src/Jobs/Action.antt =====
-- A coroutine of the orchestrator as a function of the world that it acts on. Every call that
-- leaves the process may raise; `Outside` says which ones do.
pub mod Rules
pub mod Runs
use exobrain.Prelude.{ℕ, ◌+◌, String, Bool, Option, none, some, List}
use exobrain.Prelude.Result.{Result, ok, raised}
use exobrain.Jobs.Contracts.{JobEnvelope, Event}

-- A row of the table orchestrator_jobs; its primary key is the key of the table.
pub record Row (P : Type 0) : Type 0 where
  pub job_type : String
  pub correlation_id : String
  pub payload : P
  pub attempt : ℕ
  pub status : String
  pub last_error : Option String
  pub is_terminal : Bool
  pub terminal_reason : Option String

-- What was told to the broker about the message at hand.
pub data Settlement : Type 0 where
  ack nak : Settlement

pub record World (P : Type 0) : Type 0 where
  pub table : List (String × Row P)
  pub published : List (String × Event)
  pub settled : List Settlement
  pub started : List (JobEnvelope P)
  pub calls : ℕ

-- Python's libraries, the database, the broker and the worker process. A fault at call number n is
-- the text of the exception that the call raises; a call that raises has changed nothing.
pub record Outside (P : Type 0) : Type 0 where
  pub decode_envelope : List ℕ → Result (JobEnvelope P)
  pub validate_payload : P → Option String
  pub decode_utf8 : List ℕ → String
  pub database_fault : ℕ → Option String
  pub publish_fault : ℕ → Option String
  pub settle_fault : ℕ → Option String
  pub run_fault : ℕ → JobEnvelope P → Option String

abbrev pub Action : Type 0 → Type 0 → Type 0
Action P A = World P → Result A × World P

module _ {P A : Type 0} where
  pub pure : A → Action P A
  pure a w = (ok a, w)

  abbrev answer : Option String → A × World P → World P → Result A × World P
  answer none done w = (ok done.0, done.1)
  answer (some e) done w = (raised e, w)

  -- A call that leaves the process.
  pub query : (ℕ → Option String) → (World P → A × World P) → Action P A
  query fault effect w =
      let w' = record w { calls = w.calls + 1 } in answer (fault w.calls) (effect w') w'

  abbrev handle : Result A → (String → Action P A) → Action P A
  handle (ok a) h w = (ok a, w)
  handle (raised e) h w = h e w

  -- try: m / except Exception as exc: h exc
  pub try_except : Action P A → (String → Action P A) → Action P A
  try_except m h w = let (r, w') = m w in handle r h w'

module _ {P A B : Type 0} where
  abbrev continue : Result A → (A → Action P B) → Action P B
  continue (ok a) f w = f a w
  continue (raised e) f w = (raised e, w)

  infixl 10 ◌>>=◌ ◌>>◌
  -- opening this opens the other ways to build an action
  unfoldable pub ◌>>=◌ : Action P A → (A → Action P B) → Action P B
  unfolding pure query try_except
  ◌>>=◌ m f w = let (r, w') = m w in continue r f w'

  abbrev pub ◌>>◌ : Action P A → Action P B → Action P B
  m >> n = m >>= λ _. n
