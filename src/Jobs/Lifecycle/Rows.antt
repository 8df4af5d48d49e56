-- ===== src/Jobs/Lifecycle/Rows.antt =====
-- What clients see of the rows that the orchestrator writes.
use exobrain.Prelude.{ℕ, String, ◌≡◌, refl, true, false}
use exobrain.Prelude.Result.{ok}
use exobrain.Jobs.Contracts.{JobEnvelope}
use exobrain.Jobs.Action.{Row}
use exobrain.Jobs.Repository.{
  requested_row, set_processing, set_completed, set_retrying, set_terminal,
}
use exobrain.Jobs.Lifecycle.{
  LifecycleState, started, succeeded, failed_final, StatusReply, status_snapshot_to_reply,
}

abbrev pub IsFinal : LifecycleState → Type 0
IsFinal succeeded = Unit
IsFinal failed_final = Unit
IsFinal _ = ⊥

module _ {P : Type 0} where
  -- The rows that a life of a job in which no terminal row is attempted again can have.
  pub data Written : Row P → Type 0 where
    requested : (job : JobEnvelope P) → Written (requested_row job)
    processing :
        {row : Row P} (n : ℕ)
        → Written row
        → row.is_terminal ≡ false
        → Written (set_processing n row)
    completed : {row : Row P} → Written row → Written (set_completed row)
    retrying_failure : {row : Row P} (e : String) → Written row → Written (set_retrying e row)
    terminal_failure :
        {row : Row P} (e reason : String) → Written row → Written (set_terminal e reason row)

  -- The reply of a row, and whether its state and its flag agree.
  pub record HasReply (job_id : String) (row : Row P) : Type 0 where
    pub reply : StatusReply
    pub replies : status_snapshot_to_reply job_id row ≡ ok reply
    pub agrees :
        (IsFinal reply.state → reply.terminal ≡ true)
        × (reply.terminal ≡ true → IsFinal reply.state)

  -- Each row of a life in which no terminal row is attempted again has a state for clients, which
  -- is final exactly when the row is marked terminal.
  pub Written-HasReply : (job_id : String) {row : Row P} → Written row → HasReply job_id row
  unfolding status_snapshot_to_reply
  Written-HasReply job_id (requested job) = record {
    reply = _;
    replies = refl;
    agrees = ((λ x. absurd x), λ e. cc);
  }
  Written-HasReply job_id (processing n w active) = record {
    reply = _;
    replies = refl;
    agrees = ((λ x. absurd x), λ e. cc);
  }
  Written-HasReply job_id (completed w) = record {
    reply = _;
    replies = refl;
    agrees = ((λ _. refl), λ _. tt);
  }
  Written-HasReply job_id (retrying_failure e w) = record {
    reply = _;
    replies = refl;
    agrees = ((λ x. absurd x), λ e. cc);
  }
  Written-HasReply job_id (terminal_failure e reason w) = record {
    reply = _;
    replies = refl;
    agrees = ((λ _. refl), λ _. tt);
  }

  -- A terminal row whose job is attempted again is shown as started and as terminal at once, with
  -- the number of the new attempt.
  reattempted_reply :
      (job_id : String) (n : ℕ) (row : Row P)
      → row.is_terminal ≡ true
      → (r : StatusReply) × (status_snapshot_to_reply job_id (set_processing n row) ≡ ok r)
        × (r.state ≡ started)
        × (r.terminal ≡ true)
        × (r.attempt ≡ n)
  unfolding status_snapshot_to_reply
  reattempted_reply job_id n row h = (_, refl, refl, h, refl)
