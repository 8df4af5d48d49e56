-- ===== src/Jobs/Repository.antt =====
-- job_repository.py: the statements on the table orchestrator_jobs.
pub mod Rows
pub mod Quiet
use exobrain.Prelude.{
  ℕ, String, Bool, true, false, Option, none, some, List, [], ◌∷◌, ◌++◌, ◌==◌, if◌then◌else◌,
}
use exobrain.Prelude.Dict
use exobrain.Jobs.Contracts.{JobEnvelope}
use exobrain.Jobs.Action.{Row, World, Outside, Action, query}

module _ {P : Type 0} where
  -- INSERT … VALUES (…, 'requested'); the columns that it leaves out have their defaults.
  abbrev pub requested_row : JobEnvelope P → Row P
  requested_row job = record {
    job_type = job.job_type;
    correlation_id = job.correlation_id;
    payload = job.payload;
    attempt = job.attempt;
    status = "requested";
    last_error = none;
    is_terminal = false;
    terminal_reason = none;
  }

  -- UPDATE … SET … WHERE job_id = $1: no row of that key, no change.
  unfoldable pub update_where :
      String → (Row P → Row P) → List (String × Row P) → List (String × Row P)
  update_where job_id set [] = []
  update_where job_id set ((k, row) ∷ table) =
      (k, if k == job_id then set row else row) ∷ update_where job_id set table

  -- ON CONFLICT (job_id) DO NOTHING RETURNING job_id
  abbrev insert_requested : JobEnvelope P → World P → Bool × World P
  insert_requested job w =
      if Dict.has w.table job.job_id
      then (false, w)
      else (true, record w { table = w.table ++ (job.job_id, requested_row job) ∷ [] })

  abbrev pub update : String → (Row P → Row P) → World P → Unit {0} × World P
  update job_id set w = (tt, record w { table = update_where job_id set w.table })

  abbrev pub set_processing : ℕ → Row P → Row P
  set_processing attempt row = record row { status = "processing"; attempt = attempt }

  abbrev pub set_completed : Row P → Row P
  set_completed row = record row {
    status = "completed";
    is_terminal = true;
    terminal_reason = none;
  }

  abbrev pub set_retrying : String → Row P → Row P
  set_retrying error_message row = record row {
    status = "failed";
    last_error = some error_message;
    is_terminal = false;
    terminal_reason = none;
  }

  abbrev pub set_terminal : String → String → Row P → Row P
  set_terminal error_message terminal_reason row = record row {
    status = "failed";
    last_error = some error_message;
    is_terminal = true;
    terminal_reason = some terminal_reason;
  }

module _ {P : Type 0} (o : Outside P) where
  unfoldable pub register_requested : JobEnvelope P → Action P Bool
  register_requested job = query o.database_fault (insert_requested job)

  unfoldable pub mark_processing : String → ℕ → Action P Unit
  mark_processing job_id attempt = query o.database_fault (update job_id (set_processing attempt))

  unfoldable pub mark_completed : String → Action P Unit
  mark_completed job_id = query o.database_fault (update job_id set_completed)

  unfoldable pub mark_retrying_failure : String → String → Action P Unit
  mark_retrying_failure job_id error_message =
      query o.database_fault (update job_id (set_retrying error_message))

  unfoldable pub mark_terminal_failure : String → String → String → Action P Unit
  mark_terminal_failure job_id error_message terminal_reason =
      query o.database_fault (update job_id (set_terminal error_message terminal_reason))

  unfoldable pub get_status : String → Action P (Option (Row P))
  get_status job_id = query o.database_fault (λ w. (Dict.get w.table job_id, w))

  unfoldable pub fetch_status_by_job_id : String → Action P (Option (Row P))
  fetch_status_by_job_id job_id = get_status job_id
