-- ===== src/Jobs/Orchestrator/Settling.antt =====
-- How a delivery ends for the broker: acknowledged, handed back, or left unsettled by an exception.
use exobrain.Prelude.{
  ℕ, ◌<◌, String, ◌≡◌, refl, Bool, true, false, Option, none, some, List, arith, leb,
}
use exobrain.Prelude.Result.{Result, ok, raised}
use exobrain.Jobs.Contracts.{JobEnvelope, Event}
use exobrain.Jobs.Action.{Outside, Settlement, ack, nak}
use exobrain.Jobs.Action.Rules.{
  IsQuiet, Settles, Settles-query, Settles-bind, Settles-try_except, quiet_rules, IsQuiet-query,
  Settles-if,
}
use exobrain.Jobs.Repository.Quiet.{
  register_requested-IsQuiet, mark_processing-IsQuiet, mark_completed-IsQuiet,
  mark_retrying_failure-IsQuiet, mark_terminal_failure-IsQuiet,
}
use exobrain.Jobs.Orchestrator.{
  JobOrchestrator, Msg, delivery_attempt, publish_event, settle, run_job, emit_status, emit_result,
  emit_dlq, reject_envelope, reject_payload, attempt_job, fail_attempt, start_attempt,
  register_first, process_job, check_payload, check_envelope, process_message,
}

module _ {P : Type 0} (o : Outside P) (self : JobOrchestrator) where
  publish_event-IsQuiet :
      (subject : String) (event : Event) → IsQuiet (publish_event o self subject event)
  unfolding publish_event
  publish_event-IsQuiet subject event = IsQuiet-query _ _ (λ w. refl)

  run_job-IsQuiet : (job : JobEnvelope P) → IsQuiet (run_job o self job)
  unfolding run_job
  run_job-IsQuiet job = search quiet_rules

  emit_status-IsQuiet :
      (job_id state : String) (attempt : ℕ) (terminal : Bool) (detail : Option String)
      → IsQuiet (emit_status o self job_id state attempt terminal detail)
  unfolding emit_status
  emit_status-IsQuiet job_id state attempt terminal detail = publish_event-IsQuiet _ _

  emit_result-IsQuiet :
      (job : JobEnvelope P) (outcome : String) (attempt : ℕ) (detail : Option String)
      → IsQuiet (emit_result o self job outcome attempt detail)
  unfolding emit_result
  emit_result-IsQuiet job outcome attempt detail = publish_event-IsQuiet _ _

  emit_dlq-IsQuiet :
      (reason detail : String) (raw : List ℕ) → IsQuiet (emit_dlq o self reason detail raw)
  unfolding emit_dlq
  emit_dlq-IsQuiet reason detail raw = search (quiet_rules, publish_event-IsQuiet)

  ruleset calls = (
    quiet_rules, run_job-IsQuiet, emit_status-IsQuiet, emit_result-IsQuiet, emit_dlq-IsQuiet,
    register_requested-IsQuiet, mark_processing-IsQuiet, mark_completed-IsQuiet,
    mark_retrying_failure-IsQuiet, mark_terminal_failure-IsQuiet,
  )

  -- A message may be handed back only before its last attempt.
  abbrev pub Permitted : Msg → Settlement → Type 0
  Permitted msg ack = Unit
  Permitted msg nak = delivery_attempt msg < self.max_attempts

  settle_ack : (msg : Msg) → Settles (Permitted msg) (settle o self ack)
  unfolding settle
  settle_ack msg = Settles-query (Permitted msg) _ _ ack tt (λ w. refl)

  settle_nak :
      (msg : Msg)
      → leb self.max_attempts (delivery_attempt msg) ≡ false
      → Settles (Permitted msg) (settle o self nak)
  unfolding settle
  settle_nak msg h = Settles-query (Permitted msg) _ _ nak (ground arith) (λ w. refl)

  ruleset settling = (calls, Settles-bind, Settles-try_except, Settles-if, settle_ack, settle_nak)

  reject_envelope-Settles :
      (msg : Msg) (exc : String) → Settles (Permitted msg) (reject_envelope o self msg exc)
  unfolding reject_envelope
  reject_envelope-Settles msg exc = search settling

  reject_payload-Settles :
      (msg : Msg) (e : String) → Settles (Permitted msg) (reject_payload o self msg e)
  unfolding reject_payload
  reject_payload-Settles msg e = search settling

  attempt_job-Settles :
      (msg : Msg) (job : JobEnvelope P) → Settles (Permitted msg) (attempt_job o self msg job)
  unfolding attempt_job
  attempt_job-Settles msg job = search settling depth 9

  fail_attempt-Settles :
      (msg : Msg) (job : JobEnvelope P) (exc : String)
      → Settles (Permitted msg) (fail_attempt o self msg job exc)
  unfolding fail_attempt
  fail_attempt-Settles msg job exc = search settling depth 9

  start_attempt-Settles :
      (msg : Msg) (job : JobEnvelope P) → Settles (Permitted msg) (start_attempt o self msg job)
  unfolding start_attempt
  start_attempt-Settles msg job = search (settling, attempt_job-Settles, fail_attempt-Settles)

  register_first-Settles :
      (msg : Msg) (job : JobEnvelope P) (inserted : Bool)
      → Settles (Permitted msg) (register_first o self msg job inserted)
  unfolding register_first
  register_first-Settles msg job true = search (settling, start_attempt-Settles)
  register_first-Settles msg job false = settle_ack msg

  process_job-Settles :
      (msg : Msg) (job : JobEnvelope P) → Settles (Permitted msg) (process_job o self msg job)
  unfolding process_job
  process_job-Settles msg job = search (settling, start_attempt-Settles, register_first-Settles)

  check_payload-Settles :
      (msg : Msg) (job : JobEnvelope P) (e : Option String)
      → Settles (Permitted msg) (check_payload o self msg job e)
  unfolding check_payload
  check_payload-Settles msg job none = process_job-Settles msg job
  check_payload-Settles msg job (some e) = reject_payload-Settles msg e

  check_envelope-Settles :
      (msg : Msg) (r : Result (JobEnvelope P))
      → Settles (Permitted msg) (check_envelope o self msg r)
  unfolding check_envelope
  check_envelope-Settles msg (ok job) = check_payload-Settles msg job _
  check_envelope-Settles msg (raised exc) = reject_envelope-Settles msg exc

  -- Whatever the database, the broker and the worker do, a delivery that is processed without an
  -- exception settles its message exactly once, and by a negative acknowledgement only if its
  -- attempt is below `max_attempts`; one that raises leaves the message unsettled.
  pub process_message-Settles : (msg : Msg) → Settles (Permitted msg) (process_message o self msg)
  unfolding process_message
  process_message-Settles msg = search (settling, check_envelope-Settles)
