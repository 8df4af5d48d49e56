-- ===== src/Jobs/Orchestrator/Healthy.antt =====
-- Calls that do not raise, and the events that a delivery publishes then.
use exobrain.Prelude.{
  ℕ, ◌+◌, String, ◌≡◌, refl, ◌∙◌, Bool, true, false, Option, none, some, List, [], ◌∷◌, ◌++◌,
}
use exobrain.Prelude.Result.{raised}
use exobrain.Prelude.Text.{concat, clip}
use exobrain.Jobs.Contracts.{JobEnvelope, Event, status, result, dead_letter}
use exobrain.Jobs.Action.{World, Row, Outside, Action, Settlement, query, ◌>>=◌}
use exobrain.Jobs.Action.Runs.{
  query_ok, query_raised, bind_ok, bind_raised, bind-query_ok, try_except_ok,
}
use exobrain.Jobs.Repository.{update_where, update}
use exobrain.Jobs.Orchestrator.{
  JobOrchestrator, Msg, delivery_attempt, publish_event, run_job, emit_dlq,
}

-- No call to the database or to the broker raises.
pub record IsHealthy {P : Type 0} (o : Outside P) : Type 0 where
  pub database : (n : ℕ) → o.database_fault n ≡ none
  pub publish : (n : ℕ) → o.publish_fault n ≡ none
  pub settle : (n : ℕ) → o.settle_fault n ≡ none

-- The events of an attempt, as they are published.
abbrev pub status_event : String → String → ℕ → Bool → Option String → String × Event
status_event job_id state attempt terminal detail = (
  concat ("jobs.status." ∷ job_id ∷ []),
  status (record {
    job_id = job_id;
    state = state;
    attempt = attempt;
    detail = detail;
    terminal = terminal;
  }),
)

module _ {P : Type 0} (o : Outside P) (self : JobOrchestrator) where
  abbrev pub result_event : JobEnvelope P → String → ℕ → Option String → String × Event
  result_event job outcome attempt detail = (
    concat (self.events_subject_prefix ∷ "." ∷ job.job_type ∷ "." ∷ outcome ∷ []),
    result (record {
      job_id = job.job_id;
      job_type = job.job_type;
      status = outcome;
      correlation_id = job.correlation_id;
      attempt = attempt;
      detail = detail;
    }),
  )

  abbrev pub dead_letter_event : String → String → List ℕ → String × Event
  dead_letter_event reason detail raw = (
    self.dlq_subject,
    dead_letter (record {
      reason = reason;
      detail = detail;
      raw_message = clip self.dlq_raw_message_max_chars (o.decode_utf8 raw);
    }),
  )

  abbrev pub success_events : Msg → JobEnvelope P → List (String × Event)
  success_events msg job =
      status_event job.job_id "STARTED" (delivery_attempt msg) false none
      ∷ result_event job "completed" (delivery_attempt msg) none
      ∷ status_event job.job_id "SUCCEEDED" (delivery_attempt msg) true none
      ∷ []

  abbrev pub retry_events : Msg → JobEnvelope P → String → List (String × Event)
  retry_events msg job e =
      status_event job.job_id "STARTED" (delivery_attempt msg) false none
      ∷ status_event job.job_id "RETRYING" (delivery_attempt msg) false (some e)
      ∷ []

  abbrev pub failure_events : Msg → JobEnvelope P → String → List (String × Event)
  failure_events msg job e =
      status_event job.job_id "STARTED" (delivery_attempt msg) false none
      ∷ result_event job "failed" (delivery_attempt msg) (some e)
      ∷ status_event job.job_id "FAILED_FINAL" (delivery_attempt msg) true (some e)
      ∷ dead_letter_event "max-attempts" e msg.contents
      ∷ []

-- `w` after an attempt of `job` that set its row by `set`, published `events` and ended by `s`.
module _ {P : Type 0} where
  abbrev pub attempted :
      World P → JobEnvelope P → (Row P → Row P) → List (String × Event) → Settlement → ℕ → World P
  attempted w job set events s calls = record {
    table = update_where job.job_id set w.table;
    published = w.published ++ events;
    settled = w.settled ++ s ∷ [];
    started = w.started ++ job ∷ [];
    calls = calls;
  }

-- Each call, followed by the rest of its block.
module _ {P A : Type 0} (o : Outside P) (self : JobOrchestrator) (h : IsHealthy o)
    (f : Unit {0} → Action P A) (w : World P) where
  pub bind-publish_event :
      (subject : String) (event : Event)
      → (publish_event o self subject event >>= f) w
        ≡ f tt (record w { published = w.published ++ (subject, event) ∷ []; calls = w.calls + 1 })
  unfolding publish_event
  bind-publish_event subject event = bind-query_ok _ _ h.publish f w

  pub bind-emit_dlq :
      (reason detail : String) (raw : List ℕ)
      → (emit_dlq o self reason detail raw >>= f) w
        ≡ f tt (record w {
          published = w.published ++ dead_letter_event o self reason detail raw ∷ [];
          calls = w.calls + 1;
        })
  unfolding emit_dlq publish_event
  bind-emit_dlq reason detail raw = bind_ok _ f (try_except_ok _ _ (query_ok _ _ h.publish w))

  pub bind-update :
      (job_id : String) (set : Row P → Row P)
      → (query o.database_fault (update job_id set) >>= f) w
        ≡ f tt (record w { table = update_where job_id set w.table; calls = w.calls + 1 })
  bind-update job_id set = bind-query_ok _ _ h.database f w

  pub bind-run_job_ok :
      (job : JobEnvelope P)
      → ((k : ℕ) → o.run_fault k job ≡ none)
      → (run_job o self job >>= f) w
        ≡ f tt (record w { started = w.started ++ job ∷ []; calls = w.calls + 1 + 1 })
  unfolding run_job
  bind-run_job_ok job run = bind_ok _ f (bind-query_ok _ _ (λ n. refl) _ w ∙ query_ok _ _ run _)

  pub bind-run_job_raised :
      (job : JobEnvelope P) (e : String)
      → ((k : ℕ) → o.run_fault k job ≡ some e)
      → (run_job o self job >>= f) w
        ≡ (raised e, record w { started = w.started ++ job ∷ []; calls = w.calls + 1 + 1 })
  unfolding run_job
  bind-run_job_raised job e run =
      bind_raised _ f (bind-query_ok _ _ (λ n. refl) _ w ∙ query_raised _ _ e run _)
