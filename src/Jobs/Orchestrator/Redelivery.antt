-- ===== src/Jobs/Orchestrator/Redelivery.antt =====
-- A request message over its deliveries: the broker delivers a message again, with its delivery
-- number one higher, until it is acknowledged.
use mathlib.Core.List.{append_assoc}
use exobrain.Prelude.{
  ℕ, zero, suc, ◌+◌, ◌-◌, ◌<◌, String, ◌≡◌, refl, sym, ap, subst, ◌∙◌, true, false, none, some,
  List, [], ◌∷◌, ◌++◌, arith, nat_eq, eq_refl, length, length-append, replicate,
}
use exobrain.Prelude.Dict
use exobrain.Prelude.Json.{pos}
use exobrain.Prelude.Text.{ends_with}
use exobrain.Prelude.Result.{ok}
use exobrain.Jobs.Contracts.{JobEnvelope, Event}
use exobrain.Jobs.Action.{World, Row, Outside, ack, nak, ◌>>=◌}
use exobrain.Jobs.Repository.{
  set_processing, set_retrying, set_terminal, requested_row, register_requested,
}
use exobrain.Jobs.Repository.Rows.{get-update_where, get-append_absent}
use exobrain.Jobs.Orchestrator.{
  JobOrchestrator, Msg, delivery_attempt, publish_event, settle, emit_status, validate_payload,
  start_attempt, register_first, process_job, check_payload, check_envelope, process_message,
}
use exobrain.Jobs.Orchestrator.Healthy.{
  IsHealthy, attempted, status_event, retry_events, failure_events,
}
use exobrain.Jobs.Orchestrator.Outcomes.{start_attempt_retry, start_attempt_final}

-- The message is a request that decodes to `job`, with a payload that its model accepts.
pub record IsRequest {P : Type 0} (o : Outside P) (self : JobOrchestrator) (msg : Msg)
    (job : JobEnvelope P) : Type 0 where
  pub subject : ends_with msg.subject ".requested" ≡ true
  pub envelope : o.decode_envelope msg.contents ≡ ok job
  pub payload : validate_payload o self job ≡ none

module _ {P : Type 0} (o : Outside P) (self : JobOrchestrator) (msg : Msg)
    (job : JobEnvelope P) where
  process_request :
      IsRequest o self msg job → process_message o self msg ≡ process_job o self msg job
  unfolding process_message check_envelope check_payload
  process_request r = simp (r.subject, r.envelope, r.payload)

  abbrev pub numbered : JobEnvelope P
  numbered = record job { attempt = delivery_attempt msg - 1 }

  -- A later delivery is an attempt, whatever the table holds.
  pub process_later :
      IsRequest o self msg job
      → nat_eq (delivery_attempt msg) 1 ≡ false
      → process_message o self msg ≡ start_attempt o self msg numbered
  unfolding process_job
  process_later r later = process_request r ∙ (rw later)

  -- Where no call to the database or the broker raises, the first delivery of a valid request of a
  -- job that is registered already only acknowledges the message: no attempt starts, nothing is
  -- published and the table stays as it is.
  pub process_duplicate :
      (w : World P)
      → IsHealthy o
      → IsRequest o self msg job
      → delivery_attempt msg ≡ 1
      → Dict.has w.table job.job_id ≡ true
      → process_message o self msg w
        ≡ (ok tt, record w { settled = w.settled ++ ack ∷ []; calls = w.calls + 1 + 1 })
  unfolding process_job register_first register_requested settle ◌>>=◌
  process_duplicate w h r first there =
      rw (process_request r) (simp (first, h.database, there, h.settle))

  abbrev pub registered : World P → World P
  registered w = record w {
    table = w.table ++ (job.job_id, requested_row numbered) ∷ [];
    published = w.published ++ status_event job.job_id "ENQUEUED_OR_PENDING" 0 false none ∷ [];
    calls = w.calls + 1 + 1;
  }

  pub process_fresh :
      (w : World P)
      → IsHealthy o
      → IsRequest o self msg job
      → delivery_attempt msg ≡ 1
      → Dict.has w.table job.job_id ≡ false
      → process_message o self msg w ≡ start_attempt o self msg numbered (registered w)
  unfolding process_job register_first register_requested emit_status publish_event ◌>>=◌
  process_fresh w h r first absent =
      rw (process_request r) (simp (first, h.database, absent, h.publish))

abbrev pub delivered : Msg → ℕ → Msg
delivered msg n = record msg { num_delivered = some (pos n) }

module _ {P : Type 0} (o : Outside P) (self : JobOrchestrator) where
  -- `rounds` deliveries of the message, the first of them with number `n`.
  pub deliveries : ℕ → ℕ → Msg → World P → World P
  deliveries zero n msg w = w
  deliveries (suc rounds) n msg w =
      deliveries rounds (n + 1) msg (process_message o self (delivered msg n) w).1

  delivered-IsRequest :
      (msg : Msg) (job : JobEnvelope P) (n : ℕ)
      → IsRequest o self msg job
      → IsRequest o self (delivered msg n) job
  delivered-IsRequest msg job n r = record {
    subject = r.subject;
    envelope = r.envelope;
    payload = r.payload;
  }

delivery_attempt-delivered : (msg : Msg) (n : ℕ) → 0 < n → delivery_attempt (delivered msg n) ≡ n
unfolding delivery_attempt
delivery_attempt-delivered msg n h = ground arith

module _ {P : Type 0} (o : Outside P) (self : JobOrchestrator) (msg : Msg) (job : JobEnvelope P)
    (errors : ℕ → String) where
  -- From `before`, `rounds` deliveries were handed back and the one
  -- after them, which had the last number, was acknowledged as a terminal failure: the job's row is
  -- terminal and has the error of that attempt.
  pub record IsExhausted (before : World P) (rounds : ℕ) (final : World P) : Type 0 where
    pub settled : final.settled ≡ before.settled ++ (replicate rounds nak ++ ack ∷ [])
    pub started : length final.started ≡ length before.started + suc rounds
    pub row : Row P
    pub stored : Dict.get final.table job.job_id ≡ some row
    pub terminal : row.is_terminal ≡ true
    pub status : row.status ≡ "failed"
    pub reason : row.terminal_reason ≡ some "max-attempts"
    pub last_error : row.last_error ≡ some (errors (self.max_attempts - 1))
    pub attempt : row.attempt ≡ self.max_attempts
    pub events : List (String × Event)
    pub published :
        final.published
        ≡ events
          ++ failure_events o self
              (delivered msg self.max_attempts)
              (record job { attempt = self.max_attempts - 1 })
              (errors (self.max_attempts - 1))

  module _ (h : IsHealthy o) (r : IsRequest o self msg job)
      (run : (n k : ℕ) → o.run_fault k (record job { attempt = n }) ≡ some (errors n)) where
    abbrev error_at : ℕ → String
    error_at n = errors (delivery_attempt (delivered msg n) - 1)

    abbrev attempt_with : ℕ → World P → World P
    attempt_with n w =
        (start_attempt o self (delivered msg n) (numbered o self (delivered msg n) job) w).1

    abbrev retried : ℕ → World P → World P
    retried n w =
        attempted w (numbered o self (delivered msg n) job)
          (λ row.
            set_retrying (error_at n) (set_processing (delivery_attempt (delivered msg n)) row))
          (retry_events o self (delivered msg n) (numbered o self (delivered msg n) job)
            (error_at n))
          nak (w.calls + 1 + 1 + 1 + 1 + 1 + 1 + 1)

    attempt_with-eq-retried :
        (n : ℕ) (w : World P) → 0 < n → n < self.max_attempts → attempt_with n w ≡ retried n w
    attempt_with-eq-retried n w pos_n below =
        ap (λ r. r.1)
          (start_attempt_retry o self h (delivered msg n) _ w (error_at n) (run _)
            (rw (delivery_attempt-delivered msg n pos_n) below))

    get-retried :
        (n : ℕ) (w : World P) (row : Row P)
        → Dict.get w.table job.job_id ≡ some row
        → Dict.get (retried n w).table job.job_id
          ≡ some
              (set_retrying (error_at n) (set_processing (delivery_attempt (delivered msg n)) row))
    get-retried n w row stored = simp (get-update_where, eq_refl job.job_id, stored)

    last-IsExhausted :
        (w : World P) (row : Row P)
        → 0 < self.max_attempts
        → Dict.get w.table job.job_id ≡ some row
        → IsExhausted w 0 (attempt_with self.max_attempts w)
    last-IsExhausted w row some_attempt stored =
        let same = delivery_attempt-delivered msg self.max_attempts some_attempt in
        let last : error_at self.max_attempts ≡ errors (self.max_attempts - 1) =
          ap (λ n. errors (n - 1)) same in
        rw
          (ap (λ r. r.1)
            (start_attempt_final o self h (delivered msg self.max_attempts) _ w
              (error_at self.max_attempts)
              (run (delivery_attempt (delivered msg self.max_attempts) - 1)) (omega (arith, same))))
          (record {
            settled = refl;
            started = omega (
              arith,
              length-append w.started (numbered o self (delivered msg self.max_attempts) job ∷ []),
            );
            row =
                set_terminal (error_at self.max_attempts) "max-attempts"
                  (set_processing self.max_attempts row);
            stored = simp (get-update_where, eq_refl job.job_id, stored, same);
            terminal = refl;
            status = refl;
            reason = refl;
            last_error = ap some last;
            attempt = refl;
            events = w.published;
            published =
                ap
                  (λ e.
                    w.published
                    ++ failure_events o self (delivered msg self.max_attempts)
                        (record job { attempt = self.max_attempts - 1 }) e)
                  last;
          })

    -- One more delivery that was handed back, before the others.
    IsExhausted-retried :
        (n rounds : ℕ) (w final : World P)
        → IsExhausted (retried n w) rounds final
        → IsExhausted w (suc rounds) final
    IsExhausted-retried n rounds w final x = record {
      settled = x.settled ∙ append_assoc w.settled _ _;
      started =
          omega (
            arith,
            x.started,
            length-append w.started (numbered o self (delivered msg n) job ∷ []),
          );
      row = x.row;
      stored = x.stored;
      terminal = x.terminal;
      status = x.status;
      reason = x.reason;
      last_error = x.last_error;
      attempt = x.attempt;
      events = x.events;
      published = x.published;
    }

    attempt_with-IsExhausted :
        (rounds n : ℕ) (w : World P) (row : Row P)
        → 0 < n
        → n + rounds ≡ self.max_attempts
        → Dict.get w.table job.job_id ≡ some row
        → IsExhausted w rounds (deliveries o self rounds (n + 1) msg (attempt_with n w))
    unfolding deliveries
    attempt_with-IsExhausted zero n w row pos_n end stored =
        let n_max : n ≡ self.max_attempts = omega arith in
        subst (λ k. IsExhausted w 0 (attempt_with k w)) (sym n_max)
          (last-IsExhausted w row (omega arith) stored)
    attempt_with-IsExhausted (suc rounds) n w row pos_n end stored =
        IsExhausted-retried n rounds w _ (
          rw
            (
              attempt_with-eq-retried n w pos_n (omega arith),
              process_later o self (delivered msg (n + 1)) job
                  (delivered-IsRequest o self msg job (n + 1) r)
                  (rw (delivery_attempt-delivered msg (n + 1) (omega arith)) (ground arith)),
            )
            (attempt_with-IsExhausted rounds (n + 1) (retried n w) _ (omega arith) (omega arith)
              (get-retried n w row stored)))

  -- Where no call to the database or the broker raises, a valid request of a job that is not
  -- registered, whose every attempt raises, each an error of its own, is attempted `max_attempts`
  -- times, which is at least once, and no more: each delivery but the last is handed back, the last
  -- one is acknowledged, and it leaves a row that is terminal as failed, with the reason
  -- max-attempts, the number and the error of the last attempt, after publishing the final failure
  -- and the dead letter.
  pub deliveries-IsExhausted :
      (m : ℕ) (w : World P)
      → IsHealthy o
      → IsRequest o self msg job
      → ((n k : ℕ) → o.run_fault k (record job { attempt = n }) ≡ some (errors n))
      → self.max_attempts ≡ suc m
      → Dict.has w.table job.job_id ≡ false
      → IsExhausted w m (deliveries o self self.max_attempts 1 msg w)
  unfolding deliveries
  deliveries-IsExhausted m w h r run max absent =
      let first = delivery_attempt-delivered msg 1 (omega arith) in
      let fresh = registered o self (delivered msg 1) job w in
      let x =
        attempt_with-IsExhausted h r run m 1 fresh (requested_row (record job { attempt = 0 }))
          (omega arith) (omega arith)
          (simp first (get-append_absent w.table job.job_id _ absent)) in
      subst (λ k. IsExhausted w m (deliveries o self k 1 msg w)) (sym max)
        (rw
          (process_fresh o self (delivered msg 1) job w h (delivered-IsRequest o self msg job 1 r)
            first absent)
          (record {
            settled = x.settled;
            started = x.started;
            row = x.row;
            stored = x.stored;
            terminal = x.terminal;
            status = x.status;
            reason = x.reason;
            last_error = x.last_error;
            attempt = x.attempt;
            events = x.events;
            published = x.published;
          }))
