-- ===== src/Jobs/Orchestrator/Outcomes.antt =====
-- The three ways in which an attempt ends while the database and the broker answer.
use mathlib.Core.List.{append_assoc}
use exobrain.Prelude.{
  ℕ, ◌+◌, ◌<◌, ◌≤◌, String, ◌≡◌, true, false, none, some, [], ◌∷◌, ◌++◌, le→leb, lt→leb,
}
use exobrain.Prelude.Result.{ok, raised}
use exobrain.Jobs.Contracts.{JobEnvelope}
use exobrain.Jobs.Action.{World, Outside, Settlement, ack, nak, try_except}
use exobrain.Jobs.Action.Runs.{query_ok, try_except_ok, try_except_raised}
use exobrain.Jobs.Repository.Rows.{update_where_twice}
use exobrain.Jobs.Repository.{
  set_processing, set_completed, set_retrying, set_terminal, update_where, mark_processing,
  mark_completed, mark_retrying_failure, mark_terminal_failure,
}
use exobrain.Jobs.Orchestrator.{
  JobOrchestrator, Msg, delivery_attempt, settle, emit_status, emit_result, attempt_job,
  fail_attempt, start_attempt,
}
use exobrain.Jobs.Orchestrator.Healthy.{
  IsHealthy, status_event, result_event, dead_letter_event, success_events, retry_events,
  failure_events, attempted, bind-publish_event, bind-emit_dlq, bind-update, bind-run_job_ok,
  bind-run_job_raised,
}

-- The last call of a delivery.
module _ {P : Type 0} (o : Outside P) (self : JobOrchestrator) (h : IsHealthy o) (w : World P) where
  pub settle_ok :
      (s : Settlement)
      → settle o self s w ≡ (ok tt, record w { settled = w.settled ++ s ∷ []; calls = w.calls + 1 })
  unfolding settle
  settle_ok s = query_ok _ _ h.settle w

module _ {P : Type 0} (o : Outside P) (self : JobOrchestrator) (h : IsHealthy o) (msg : Msg)
    (job : JobEnvelope P) (w : World P) where
  attempt_job_ok :
      ((k : ℕ) → o.run_fault k job ≡ none)
      → attempt_job o self msg job w ≡ (
        ok tt,
        record {
          table = update_where job.job_id set_completed w.table;
          published =
              (w.published ++ result_event o self job "completed" (delivery_attempt msg) none ∷ [])
              ++ status_event job.job_id "SUCCEEDED" (delivery_attempt msg) true none ∷ [];
          settled = w.settled ++ ack ∷ [];
          started = w.started ++ job ∷ [];
          calls = w.calls + 1 + 1 + 1 + 1 + 1 + 1;
        },
      )
  unfolding attempt_job mark_completed emit_status emit_result
  attempt_job_ok run = simp (
    bind-run_job_ok o self h _ _ job run,
    bind-update o self h,
    bind-publish_event o self h,
    settle_ok o self h,
  )

  attempt_job_raised :
      (e : String)
      → ((k : ℕ) → o.run_fault k job ≡ some e)
      → attempt_job o self msg job w
        ≡ (raised e, record w { started = w.started ++ job ∷ []; calls = w.calls + 1 + 1 })
  unfolding attempt_job
  attempt_job_raised e run = bind-run_job_raised o self h _ w job e run

  fail_attempt_retry :
      (e : String)
      → delivery_attempt msg < self.max_attempts
      → fail_attempt o self msg job e w ≡ (
        ok tt,
        record w {
          table = update_where job.job_id (set_retrying e) w.table;
          published =
              w.published
              ++ status_event job.job_id "RETRYING" (delivery_attempt msg) false (some e) ∷ [];
          settled = w.settled ++ nak ∷ [];
          calls = w.calls + 1 + 1 + 1;
        },
      )
  unfolding fail_attempt mark_retrying_failure emit_status
  fail_attempt_retry e below = simp (
    lt→leb self.max_attempts (delivery_attempt msg) below,
    bind-update o self h,
    bind-publish_event o self h,
    settle_ok o self h,
  )

  fail_attempt_final :
      (e : String)
      → self.max_attempts ≤ delivery_attempt msg
      → fail_attempt o self msg job e w ≡ (
        ok tt,
        record w {
          table = update_where job.job_id (set_terminal e "max-attempts") w.table;
          published =
              ((w.published
                  ++ result_event o self job "failed" (delivery_attempt msg) (some e) ∷ [])
                ++ status_event job.job_id "FAILED_FINAL" (delivery_attempt msg) true (some e) ∷ [])
              ++ dead_letter_event o self "max-attempts" e msg.contents ∷ [];
          settled = w.settled ++ ack ∷ [];
          calls = w.calls + 1 + 1 + 1 + 1 + 1;
        },
      )
  unfolding fail_attempt mark_terminal_failure emit_status emit_result
  fail_attempt_final e above = simp (
    le→leb self.max_attempts (delivery_attempt msg) above,
    bind-update o self h,
    bind-publish_event o self h,
    bind-emit_dlq o self h,
    settle_ok o self h,
  )

module _ {P : Type 0} (o : Outside P) (self : JobOrchestrator) (h : IsHealthy o) (msg : Msg)
    (job : JobEnvelope P) (w : World P) where
  -- The world at the `try`.
  abbrev at_try : World P
  at_try = record w {
    table = update_where job.job_id (set_processing (delivery_attempt msg)) w.table;
    published =
        w.published ++ status_event job.job_id "STARTED" (delivery_attempt msg) false none ∷ [];
    calls = w.calls + 1 + 1;
  }

  start_attempt_try :
      start_attempt o self msg job w
      ≡ try_except (attempt_job o self msg job) (fail_attempt o self msg job) at_try
  unfolding start_attempt mark_processing emit_status
  start_attempt_try = simp (bind-update o self h, bind-publish_event o self h)

  pub start_attempt_ok :
      ((k : ℕ) → o.run_fault k job ≡ none)
      → start_attempt o self msg job w ≡ (
        ok tt,
        attempted w job
            (λ row. set_completed (set_processing (delivery_attempt msg) row))
            (success_events o self msg job)
            ack
            (w.calls + 1 + 1 + 1 + 1 + 1 + 1 + 1 + 1),
      )
  start_attempt_ok run =
      rw (start_attempt_try, try_except_ok _ _ (attempt_job_ok o self h msg job at_try run))
        (simp (append_assoc, update_where_twice))

  pub start_attempt_retry :
      (e : String)
      → ((k : ℕ) → o.run_fault k job ≡ some e)
      → delivery_attempt msg < self.max_attempts
      → start_attempt o self msg job w ≡ (
        ok tt,
        attempted w job
            (λ row. set_retrying e (set_processing (delivery_attempt msg) row))
            (retry_events o self msg job e)
            nak
            (w.calls + 1 + 1 + 1 + 1 + 1 + 1 + 1),
      )
  start_attempt_retry e run below =
      rw
        (
          start_attempt_try,
          try_except_raised _ _ (attempt_job_raised o self h msg job at_try e run),
          fail_attempt_retry o self h msg job _ e below,
        )
        (simp (append_assoc, update_where_twice))

  pub start_attempt_final :
      (e : String)
      → ((k : ℕ) → o.run_fault k job ≡ some e)
      → self.max_attempts ≤ delivery_attempt msg
      → start_attempt o self msg job w ≡ (
        ok tt,
        attempted w job
            (λ row. set_terminal e "max-attempts" (set_processing (delivery_attempt msg) row))
            (failure_events o self msg job e)
            ack
            (w.calls + 1 + 1 + 1 + 1 + 1 + 1 + 1 + 1 + 1),
      )
  start_attempt_final e run above =
      rw
        (
          start_attempt_try,
          try_except_raised _ _ (attempt_job_raised o self h msg job at_try e run),
          fail_attempt_final o self h msg job _ e above,
        )
        (simp (append_assoc, update_where_twice))
