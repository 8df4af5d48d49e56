-- ===== src/Jobs/Orchestrator/Completion.antt =====
-- A job that runs without an exception: its first delivery, and a delivery after it.
use mathlib.Core.List.{append_assoc}
use exobrain.Prelude.{
  ℕ, ◌-◌, String, ◌≡◌, refl, false, none, some, List, [], ◌∷◌, ◌++◌, nat_eq, eq_refl,
}
use exobrain.Prelude.Dict
use exobrain.Prelude.Result.{Result, ok}
use exobrain.Jobs.Contracts.{JobEnvelope, Event}
use exobrain.Jobs.Action.{World, Row, Outside, ack}
use exobrain.Jobs.Repository.{requested_row, set_processing, set_completed}
use exobrain.Jobs.Repository.Rows.{get-update_where, get-append_absent}
use exobrain.Jobs.Orchestrator.{JobOrchestrator, Msg, delivery_attempt, process_message}
use exobrain.Jobs.Orchestrator.Healthy.{IsHealthy, status_event, success_events}
use exobrain.Jobs.Orchestrator.Outcomes.{start_attempt_ok}
use exobrain.Jobs.Orchestrator.Redelivery.{
  IsRequest, numbered, registered, process_fresh, process_later,
}

module _ {P : Type 0} (o : Outside P) (self : JobOrchestrator) (msg : Msg)
    (job : JobEnvelope P) where
  -- From `before`, the job was run once and completed: `row` is its row at the start of the attempt,
  -- `first` what was published before it.
  pub record IsCompleted (before : World P) (row : Row P) (first : List (String × Event))
      (done : Result (Unit {0}) × World P) : Type 0 where
    pub returned : done.0 ≡ ok tt
    pub settled : done.1.settled ≡ before.settled ++ ack ∷ []
    pub started : done.1.started ≡ before.started ++ numbered o self msg job ∷ []
    pub stored :
        Dict.get done.1.table job.job_id
        ≡ some (set_completed (set_processing (delivery_attempt msg) row))
    pub published : done.1.published ≡ before.published ++ (first ++ success_events o self msg job)

  module _ (w : World P) (h : IsHealthy o) (r : IsRequest o self msg job)
      (run : (n k : ℕ) → o.run_fault k (record job { attempt = n }) ≡ none) where
    -- Where no call to the database or the broker raises, and the job runs without an exception,
    -- the first delivery of a valid request of a job that is not registered runs it once, leaves
    -- its row completed, publishes that it is pending, started, completed and succeeded, in this
    -- order, and acknowledges the message.
    pub first_delivery-IsCompleted :
        delivery_attempt msg ≡ 1
        → Dict.has w.table job.job_id ≡ false
        → IsCompleted w
            (requested_row (record job { attempt = 0 }))
            (status_event job.job_id "ENQUEUED_OR_PENDING" 0 false none ∷ [])
            (process_message o self msg w)
    first_delivery-IsCompleted first absent =
        rw
          (
            process_fresh o self msg job w h r first absent,
            start_attempt_ok o self h msg (numbered o self msg job) (registered o self msg job w)
                (run (delivery_attempt msg - 1)),
          )
          (record {
            returned = refl;
            settled = refl;
            started = refl;
            stored = simp (
              get-update_where,
              eq_refl job.job_id,
              get-append_absent w.table job.job_id (requested_row (numbered o self msg job)) absent,
            );
            published = append_assoc w.published _ _;
          })

    -- Where no call to the database or the broker raises, and the job runs without an exception, a
    -- delivery after the first of a valid request runs the job whatever its row says, also when an
    -- earlier delivery has completed it.
    pub later_delivery-IsCompleted :
        (row : Row P)
        → nat_eq (delivery_attempt msg) 1 ≡ false
        → Dict.get w.table job.job_id ≡ some row
        → IsCompleted w row [] (process_message o self msg w)
    later_delivery-IsCompleted row later stored =
        rw
          (
            process_later o self msg job r later,
            start_attempt_ok o self h msg (numbered o self msg job) w
                (run (delivery_attempt msg - 1)),
          )
          (record {
            returned = refl;
            settled = refl;
            started = refl;
            stored = simp (get-update_where, eq_refl job.job_id, stored);
            published = refl;
          })
