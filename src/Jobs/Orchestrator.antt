-- ===== src/Jobs/Orchestrator.antt =====
-- orchestrator.py: what the worker does with one delivery of a request message.
pub mod Settling
pub mod Healthy
pub mod Outcomes
pub mod Redelivery
pub mod Completion
use exobrain.Prelude.{
  ℕ, ◌-◌, String, Bool, true, false, not, Option, none, some, List, [], ◌∷◌, ◌++◌, ◌==◌, ltb, leb,
  nat_eq, if◌then◌else◌,
}
use exobrain.Prelude.Json.{ℤ, pos, negsuc}
use exobrain.Prelude.Result.{Result, ok, raised}
use exobrain.Prelude.Text.{concat, ends_with, clip}
use exobrain.Jobs.Contracts.{
  JobEnvelope, JobStatusEvent, JobResultEvent, DeadLetterEvent, Event, result, status, dead_letter,
}
use exobrain.Jobs.Action.{
  World, Outside, Action, Settlement, ack, nak, pure, query, try_except, ◌>>=◌, ◌>>◌,
}
use exobrain.Jobs.Repository.{
  register_requested, mark_processing, mark_completed, mark_retrying_failure, mark_terminal_failure,
}

-- The constructor's arguments that are plain values; the others are in `Outside`.
pub record JobOrchestrator : Type 0 where
  pub events_subject_prefix : String
  pub dlq_subject : String
  pub max_attempts : ℕ
  pub dlq_raw_message_max_chars : ℕ

-- A message of the broker. `num_delivered` is none where the metadata has no such integer.
pub record Msg : Type 0 where
  pub subject : String
  pub contents : List ℕ
  pub num_delivered : Option ℤ

abbrev positive_or_one : Option ℤ → ℕ
positive_or_one (some (pos value)) = if ltb 0 value then value else 1
positive_or_one _ = 1

unfoldable pub delivery_attempt : Msg → ℕ
delivery_attempt msg = positive_or_one msg.num_delivered

-- The keys of JOB_PAYLOAD_MODEL_BY_TYPE.
abbrev pub knowledge_update_type : String
knowledge_update_type = "knowledge.update"

module _ {P : Type 0} (o : Outside P) (self : JobOrchestrator) where
  unfoldable pub validate_payload : JobEnvelope P → Option String
  validate_payload job =
      if job.job_type == knowledge_update_type then o.validate_payload job.payload else none

  pub publish_event : String → Event → Action P Unit
  publish_event subject event =
      query o.publish_fault
        (λ w. (tt, record w { published = w.published ++ (subject, event) ∷ [] }))

  pub settle : Settlement → Action P Unit
  settle s = query o.settle_fault (λ w. (tt, record w { settled = w.settled ++ s ∷ [] }))

  -- self._runner.run_job(job): an exception comes after the start of the job.
  pub run_job : JobEnvelope P → Action P Unit
  run_job job = query (λ n. none) (λ w. (tt, record w { started = w.started ++ job ∷ [] })) >>= λ _.
      query (λ n. o.run_fault n job) (λ w. (tt, w))

  emit_status : String → String → ℕ → Bool → Option String → Action P Unit
  emit_status job_id state attempt terminal detail =
      publish_event (concat ("jobs.status." ∷ job_id ∷ [])) (
        status (record {
          job_id = job_id;
          state = state;
          attempt = attempt;
          detail = detail;
          terminal = terminal;
        }))

  emit_result : JobEnvelope P → String → ℕ → Option String → Action P Unit
  emit_result job outcome attempt detail =
      publish_event (concat (self.events_subject_prefix ∷ "." ∷ job.job_type ∷ "." ∷ outcome ∷ []))
        (result (record {
          job_id = job.job_id;
          job_type = job.job_type;
          status = outcome;
          correlation_id = job.correlation_id;
          attempt = attempt;
          detail = detail;
        }))

  pub emit_dlq : String → String → List ℕ → Action P Unit
  emit_dlq reason detail raw_message =
      try_except
        (publish_event self.dlq_subject (
          dead_letter (record {
            reason = reason;
            detail = detail;
            raw_message = clip self.dlq_raw_message_max_chars (o.decode_utf8 raw_message);
          })))
        (λ exc. pure tt)

  -- `except ValidationError` of the envelope
  reject_envelope : Msg → String → Action P Unit
  reject_envelope msg exc =
      if leb self.max_attempts (delivery_attempt msg)
      then (do emit_dlq "invalid-envelope" exc msg.contents; settle ack)
      else settle nak

  reject_payload : Msg → String → Action P Unit
  reject_payload msg payload_error = do
    emit_dlq "invalid-payload" payload_error msg.contents
    settle ack

  -- The body of the `try`.
  attempt_job : Msg → JobEnvelope P → Action P Unit
  attempt_job msg run_job_envelope = do
    run_job run_job_envelope
    mark_completed o run_job_envelope.job_id
    emit_result run_job_envelope "completed" (delivery_attempt msg) none
    emit_status run_job_envelope.job_id "SUCCEEDED" (delivery_attempt msg) true none
    settle ack

  -- The `except Exception` of that `try`.
  fail_attempt : Msg → JobEnvelope P → String → Action P Unit
  fail_attempt msg job exc =
      if leb self.max_attempts (delivery_attempt msg)
      then (do
        mark_terminal_failure o job.job_id exc "max-attempts"
        emit_result job "failed" (delivery_attempt msg) (some exc)
        emit_status job.job_id "FAILED_FINAL" (delivery_attempt msg) true (some exc)
        emit_dlq "max-attempts" exc msg.contents
        settle ack)
      else (do
        mark_retrying_failure o job.job_id exc
        emit_status job.job_id "RETRYING" (delivery_attempt msg) false (some exc)
        settle nak)

  pub start_attempt : Msg → JobEnvelope P → Action P Unit
  start_attempt msg job = do
    mark_processing o job.job_id (delivery_attempt msg)
    emit_status job.job_id "STARTED" (delivery_attempt msg) false none
    try_except (attempt_job msg job) (fail_attempt msg job)

  -- The first delivery registers the job; a job that is there already is skipped.
  register_first : Msg → JobEnvelope P → Bool → Action P Unit
  register_first msg job true = do
    emit_status job.job_id "ENQUEUED_OR_PENDING" (delivery_attempt msg - 1) false none
    start_attempt msg job
  register_first msg job false = settle ack

  pub process_job : Msg → JobEnvelope P → Action P Unit
  process_job msg job =
      let run_job_envelope = record job { attempt = delivery_attempt msg - 1 } in
      if nat_eq (delivery_attempt msg) 1
      then (do
        inserted ← register_requested o run_job_envelope
        register_first msg run_job_envelope inserted)
      else start_attempt msg run_job_envelope

  check_payload : Msg → JobEnvelope P → Option String → Action P Unit
  check_payload msg job none = process_job msg job
  check_payload msg job (some payload_error) = reject_payload msg payload_error

  pub check_envelope : Msg → Result (JobEnvelope P) → Action P Unit
  unfolding validate_payload
  check_envelope msg (ok job) = check_payload msg job (validate_payload job)
  check_envelope msg (raised exc) = reject_envelope msg exc

  unfoldable pub process_message : Msg → Action P Unit
  process_message msg =
      if ends_with msg.subject ".requested"
      then check_envelope msg (o.decode_envelope msg.contents)
      else settle ack
