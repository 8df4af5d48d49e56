-- ===== src/Jobs/Samples.antt =====
-- A worker, a request message and a client, on which the theorems about jobs are applied.
use exobrain.Prelude.{
  IsAmong, inl, ℕ, zero, suc, String, ◌≡◌, refl, true, false, Option, none, some, List, [], ◌∷◌,
}
use exobrain.Prelude.Dict
use exobrain.Prelude.Json.{Json, null, pos}
use exobrain.Prelude.Result.{Result, ok, raised}
use exobrain.Prelude.Text.{ends_with}
use exobrain.Jobs.Contracts.{JobEnvelope, JobStatusEvent}
use exobrain.Jobs.Action.{Row, World, Outside, ack}
use exobrain.Jobs.Action.Rules.{Settles}
use exobrain.Jobs.Repository.{requested_row, set_processing}
use exobrain.Jobs.Orchestrator.{
  JobOrchestrator, Msg, delivery_attempt, validate_payload, process_message,
}
use exobrain.Jobs.Orchestrator.Settling.{Permitted, process_message-Settles}
use exobrain.Jobs.Orchestrator.Healthy.{IsHealthy, status_event}
use exobrain.Jobs.Orchestrator.Redelivery.{
  IsRequest, IsExhausted, deliveries, process_duplicate, deliveries-IsExhausted,
}
use exobrain.Jobs.Orchestrator.Completion.{
  IsCompleted, first_delivery-IsCompleted, later_delivery-IsCompleted,
}
use exobrain.Jobs.Lifecycle.Rows.{requested, processing, HasReply, Written-HasReply}
use exobrain.Prelude.{Bool, All, ◌≢◌, ◌↔◌, leb, ◌&&◌}
use exobrain.Jobs.Runner.{EndedProcess, safe_job_id, run_job}
use exobrain.Jobs.Runner.Success.{IsSuccess, safe_job_id-All, run_job-IsSuccess}
use exobrain.Jobs.Servicer.{Fetch, Subscription, watch_job_status}
use exobrain.Jobs.Servicer.Delivered.{process_message-enqueued}
use exobrain.Jobs.Servicer.Enqueueing.{
  envelope, resolve_payload, EnqueueJobRequest, knowledge_update, enqueue_job, Accounted,
  enqueue_job-Accounted,
}
use exobrain.Jobs.Servicer.Watching.{IsProper, watch_job_status-IsProper}

abbrev job : JobEnvelope String
job = record {
  schema_version = 1;
  job_id = "5d7b";
  job_type = "knowledge.update";
  correlation_id = "user-1";
  payload = "journal 2026/02/19";
  attempt = 0;
}

-- A worker whose jobs end with `outcome`; what is not empty decodes to the job.
abbrev decode : List ℕ → Result (JobEnvelope String)
decode [] = raised "invalid envelope"
decode (c ∷ contents) = ok job

abbrev outside : Option String → Outside String
outside outcome = record {
  decode_envelope = decode;
  validate_payload = λ payload. none;
  decode_utf8 = λ contents. "{}";
  database_fault = λ n. none;
  publish_fault = λ n. none;
  settle_fault = λ n. none;
  run_fault = λ n started_job. outcome;
}

abbrev orchestrator : JobOrchestrator
orchestrator = record {
  events_subject_prefix = "jobs.events";
  dlq_subject = "jobs.dlq";
  max_attempts = 3;
  dlq_raw_message_max_chars = 4096;
}

abbrev message : ℕ → Msg
message n = record {
  subject = "jobs.knowledge.update.requested";
  contents = 123 ∷ 125 ∷ [];
  num_delivered = some (pos n);
}

abbrev completed_row : Row String
completed_row = record {
  job_type = "knowledge.update";
  correlation_id = "user-1";
  payload = "journal 2026/02/19";
  attempt = 1;
  status = "completed";
  last_error = none;
  is_terminal = true;
  terminal_reason = none;
}

abbrev world : List (String × Row String) → World String
world table = record { table = table; published = []; settled = []; started = []; calls = 0 }

abbrev stored_world : World String
stored_world = world (("5d7b", completed_row) ∷ [])

outside-IsHealthy : (outcome : Option String) → IsHealthy (outside outcome)
outside-IsHealthy outcome = record { database = λ n. refl; publish = λ n. refl; settle = λ n. refl }

message-IsRequest :
    (outcome : Option String) (n : ℕ) → IsRequest (outside outcome) orchestrator (message n) job
unfolding ends_with validate_payload
message-IsRequest outcome n = record { subject = refl; envelope = refl; payload = refl }

process_message-Settles_example :
    Settles
      (Permitted (outside (some "boom")) orchestrator (message 1))
      (process_message (outside (some "boom")) orchestrator (message 1))
process_message-Settles_example =
    process_message-Settles (outside (some "boom")) orchestrator (message 1)

process_duplicate_example :
    process_message (outside none) orchestrator (message 1) stored_world
    ≡ (ok tt, record stored_world { settled = ack ∷ []; calls = 2 })
unfolding delivery_attempt Dict.has
process_duplicate_example =
    process_duplicate (outside none) orchestrator (message 1) job stored_world
      (outside-IsHealthy none) (message-IsRequest none 1) refl refl

deliveries-IsExhausted_example :
    IsExhausted
      (outside (some "boom"))
      orchestrator
      (message 1)
      job
      (λ n. "boom")
      (world [])
      2
      (deliveries (outside (some "boom")) orchestrator 3 1 (message 1) (world []))
unfolding Dict.has
deliveries-IsExhausted_example =
    deliveries-IsExhausted (outside (some "boom")) orchestrator (message 1) job (λ n. "boom") 2
      (world []) (outside-IsHealthy (some "boom")) (message-IsRequest (some "boom") 1) (λ n k. refl)
      refl refl

first_delivery-IsCompleted_example :
    IsCompleted
      (outside none)
      orchestrator
      (message 1)
      job
      (world [])
      (requested_row job)
      (status_event "5d7b" "ENQUEUED_OR_PENDING" 0 false none ∷ [])
      (process_message (outside none) orchestrator (message 1) (world []))
unfolding delivery_attempt Dict.has
first_delivery-IsCompleted_example =
    first_delivery-IsCompleted (outside none) orchestrator (message 1) job (world [])
      (outside-IsHealthy none) (message-IsRequest none 1) (λ n k. refl) refl refl

later_delivery-IsCompleted_example :
    IsCompleted
      (outside none)
      orchestrator
      (message 2)
      job
      stored_world
      completed_row
      []
      (process_message (outside none) orchestrator (message 2) stored_world)
unfolding delivery_attempt Dict.get
later_delivery-IsCompleted_example =
    later_delivery-IsCompleted (outside none) orchestrator (message 2) job stored_world
      (outside-IsHealthy none) (message-IsRequest none 2) (λ n k. refl) completed_row refl refl

Written-HasReply_example : HasReply "5d7b" (set_processing 1 (requested_row job))
Written-HasReply_example = Written-HasReply "5d7b" (processing 1 (requested job) refl)

abbrev request : EnqueueJobRequest
request = record {
  job_type = "knowledge.update";
  user_id = "user-1";
  payload =
      knowledge_update (record {
        journal_reference = "2026/02/19";
        messages = [];
        requested_by_user_id = "user-1";
      });
}

abbrev parse : String → Result (Json ℕ)
parse s = ok null

abbrev accept : Json ℕ → Result String
accept payload = ok "journal 2026/02/19"

-- The broker fails at the second publication.
abbrev second_fails : ℕ → Option String
second_fails zero = none
second_fails (suc n) = some "connection closed"

enqueue_job-Accounted_example :
    Accounted parse accept second_fails "5d7b" request
      (enqueue_job parse accept second_fails "5d7b" request)
enqueue_job-Accounted_example = enqueue_job-Accounted parse accept second_fails "5d7b" request

job-published :
    IsAmong
      (enqueue_job parse accept (λ n. none) "5d7b" request).1
      ((message 1).subject, envelope job)
unfolding enqueue_job resolve_payload
job-published = inl refl

process_message-enqueued_example :
    IsCompleted
      (outside none)
      orchestrator
      (message 1)
      job
      (world [])
      (requested_row job)
      (status_event "5d7b" "ENQUEUED_OR_PENDING" 0 false none ∷ [])
      (process_message (outside none) orchestrator (message 1) (world []))
unfolding delivery_attempt Dict.has validate_payload
process_message-enqueued_example =
    process_message-enqueued parse accept (λ n. none) "5d7b" request (outside none) orchestrator
      (message 1) job (world []) job-published refl refl (outside-IsHealthy none) (λ n k. refl) refl
      refl

abbrev fetch : Fetch String
fetch = some (λ job_id. ok (some (job_id, requested_row job)))

abbrev succeeded_event : JobStatusEvent
succeeded_event = record {
  job_id = "5d7b";
  state = "SUCCEEDED";
  attempt = 1;
  detail = none;
  terminal = true;
}

abbrev subscription : Option (String → Result Subscription)
subscription = some (λ subject. ok (record {
  deliveries = record { is_cancelled = false; event = ok succeeded_event } ∷ [];
  unsubscribe = some none;
}))

watch_job_status-IsProper_example :
    IsProper fetch subscription "5d7b" (watch_job_status fetch subscription (λ s. true) "5d7b" true)
watch_job_status-IsProper_example =
    watch_job_status-IsProper fetch subscription (λ s. true) "5d7b" true

-- Lower case letters.
abbrev is_letter : ℕ → Bool
is_letter c = leb 97 c && leb c 122

-- "a/b"
safe_job_id-All_example : All (λ c. (c ≢ 47) × (c ≢ 92)) (safe_job_id is_letter (97 ∷ 47 ∷ 98 ∷ []))
safe_job_id-All_example = safe_job_id-All is_letter (97 ∷ 47 ∷ 98 ∷ []) refl refl

abbrev process : EndedProcess
process = record { returncode = pos 1; stdout = []; stderr = 98 ∷ [] }

abbrev create : String → JobEnvelope String → Result EndedProcess
create module_name started_job = ok process

abbrev write_log : JobEnvelope String → String → EndedProcess → Result (Unit {0})
write_log started_job module_name ended = ok tt

abbrev decode_stderr : List ℕ → Result String
decode_stderr contents = ok "b"

run_job-IsSuccess_example :
    (run_job create write_log decode_stderr job ≡ ok tt)
    ↔ IsSuccess create write_log decode_stderr job
run_job-IsSuccess_example = run_job-IsSuccess create write_log decode_stderr job
