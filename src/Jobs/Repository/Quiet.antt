-- ===== src/Jobs/Repository/Quiet.antt =====
-- No statement on orchestrator_jobs settles a message.
use exobrain.Prelude.{ℕ, String, ◌≡◌, refl, arith}
use exobrain.Jobs.Contracts.{JobEnvelope}
use exobrain.Jobs.Action.{World, Outside}
use exobrain.Jobs.Action.Rules.{IsQuiet, IsQuiet-query}
use exobrain.Jobs.Repository.{
  insert_requested, register_requested, mark_processing, mark_completed, mark_retrying_failure,
  mark_terminal_failure,
}

module _ {P : Type 0} (o : Outside P) where
  insert-settled :
      (job : JobEnvelope P) (w : World P) → (insert_requested job w).1.settled ≡ w.settled
  insert-settled job w = ground arith

  pub register_requested-IsQuiet : (job : JobEnvelope P) → IsQuiet (register_requested o job)
  unfolding register_requested
  register_requested-IsQuiet job = IsQuiet-query _ _ (insert-settled job)

  pub mark_processing-IsQuiet :
      (job_id : String) (attempt : ℕ) → IsQuiet (mark_processing o job_id attempt)
  unfolding mark_processing
  mark_processing-IsQuiet job_id attempt = IsQuiet-query _ _ (λ w. refl)

  pub mark_completed-IsQuiet : (job_id : String) → IsQuiet (mark_completed o job_id)
  unfolding mark_completed
  mark_completed-IsQuiet job_id = IsQuiet-query _ _ (λ w. refl)

  pub mark_retrying_failure-IsQuiet :
      (job_id e : String) → IsQuiet (mark_retrying_failure o job_id e)
  unfolding mark_retrying_failure
  mark_retrying_failure-IsQuiet job_id e = IsQuiet-query _ _ (λ w. refl)

  pub mark_terminal_failure-IsQuiet :
      (job_id e reason : String) → IsQuiet (mark_terminal_failure o job_id e reason)
  unfolding mark_terminal_failure
  mark_terminal_failure-IsQuiet job_id e reason = IsQuiet-query _ _ (λ w. refl)
