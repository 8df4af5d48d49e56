-- ===== src/Jobs/Servicer/Delivered.antt =====
-- From EnqueueJob of transport/grpc/service.py to the worker that gets what it publishes.
use exobrain.Prelude.{
  ℕ, String, ◌≡◌, refl, inl, inr, Bool, true, false, Option, none, subst, List, [], ◌∷◌, IsAmong,
  ap, sym,
}
use exobrain.Prelude.Dict
use exobrain.Prelude.Json.{Json}
use exobrain.Prelude.Result.{Result, ok, raised}
use exobrain.Prelude.Text.{concat, ends_with, ends_with-append}
use exobrain.Jobs.Contracts.{JobEnvelope}
use exobrain.Jobs.Action.{World, Outside}
use exobrain.Jobs.Repository.{requested_row}
use exobrain.Jobs.Orchestrator.{
  JobOrchestrator, Msg, delivery_attempt, validate_payload, process_message,
}
use exobrain.Jobs.Orchestrator.Healthy.{IsHealthy, status_event}
use exobrain.Jobs.Orchestrator.Redelivery.{IsRequest}
use exobrain.Jobs.Orchestrator.Completion.{IsCompleted, first_delivery-IsCompleted}
use exobrain.Jobs.Servicer.Enqueueing.{
  EnqueueJobRequest, Published, envelope, job_status, request_message, pending_message, enqueue_job,
  Accounted, enqueue_job-Accounted,
}

request_subject :
    (job_type : String)
    → ends_with (concat ("jobs." ∷ job_type ∷ ".requested" ∷ [])) ".requested" ≡ true
unfolding ends_with
request_subject job_type =
    ends_with-append "jobs." (concat (job_type ∷ ".requested" ∷ [])) ".requested"
      (ends_with-append job_type ".requested" ".requested" refl)

abbrev attempt_of : {P : Type 0} → Published P → ℕ
attempt_of (envelope job) = job.attempt
attempt_of (job_status event) = 0

abbrev is_envelope : {P : Type 0} → Published P → Bool
is_envelope (envelope job) = true
is_envelope (job_status event) = false

module _ {F P : Type 0} (json_loads : String → Result (Json F)) (model_validate : Json F → Result P)
    (publish_fault : ℕ → Option String) (job_id : String) where
  abbrev sent : EnqueueJobRequest → P → String × Published P
  sent request payload =
      request_message json_loads model_validate publish_fault job_id request payload

  abbrev IsNew : String → JobEnvelope P → Type 0
  IsNew subject job = (ends_with subject ".requested" ≡ true) × (job.attempt ≡ 0)

  the_message :
      (request : EnqueueJobRequest) (payload : P) (subject : String) (job : JobEnvelope P)
      → sent request payload ≡ (subject, envelope job)
      → IsNew subject job
  the_message request payload subject job e =
      let same : concat ("jobs." ∷ request.job_type ∷ ".requested" ∷ []) ≡ subject =
        ap (λ m. m.0) e in
      (
        subst (λ s. ends_with s ".requested" ≡ true) same (request_subject request.job_type),
        sym (ap (λ m. attempt_of m.1) e),
      )

  the_one :
      (request : EnqueueJobRequest) (payload : P) (subject : String) (job : JobEnvelope P)
      → IsAmong (sent request payload ∷ []) (subject, envelope job)
      → IsNew subject job
  the_one request payload subject job (inl e) = the_message request payload subject job e
  the_one request payload subject job (inr h) = elim h [ ]

  one_of_two :
      (request : EnqueueJobRequest) (payload : P) (subject : String) (job : JobEnvelope P)
      → IsAmong
          (sent request payload
            ∷ pending_message json_loads model_validate publish_fault job_id
            ∷ [])
          (subject, envelope job)
      → IsNew subject job
  one_of_two request payload subject job (inl e) = the_message request payload subject job e
  one_of_two request payload subject job (inr (inl e)) =
      let kinds : false ≡ true = ap (λ m. is_envelope m.1) e in absurd (cc)
  one_of_two request payload subject job (inr (inr h)) = elim h [ ]

  -- An envelope that is among what a call has published is the new one, on the subject of a request.
  published-subject :
      (request : EnqueueJobRequest) (subject : String) (job : JobEnvelope P)
      (done : Result String × List (String × Published P))
      → Accounted json_loads model_validate publish_fault job_id request done
      → IsAmong done.1 (subject, envelope job)
      → IsNew subject job
  published-subject request subject job (ok reply, published) (payload, _, _, e) among =
      one_of_two request payload subject job
        (subst (λ ps. IsAmong ps (subject, envelope job)) e among)
  published-subject request subject job (raised exc, published) (inl e) among =
      elim (subst (λ ps. IsAmong ps (subject, envelope job)) e among) [ ]
  published-subject request subject job (raised exc, published) (inr (payload, _, e)) among =
      the_one request payload subject job (subst (λ ps. IsAmong ps (subject, envelope job)) e among)

  -- Where no call to the database or the broker raises, the first delivery of a message on the subject
  -- of an envelope that EnqueueJob published, whether it replied or raised then, completes the job:
  -- if the message decodes to that envelope, the worker accepts its payload, the job is not
  -- registered, and it runs without an exception.
  pub process_message-enqueued :
      (request : EnqueueJobRequest) (o : Outside P) (self : JobOrchestrator) (msg : Msg)
      (job : JobEnvelope P) (w : World P)
      → IsAmong
          (enqueue_job json_loads model_validate publish_fault job_id request).1
          (msg.subject, envelope job)
      → o.decode_envelope msg.contents ≡ ok job
      → validate_payload o self job ≡ none
      → IsHealthy o
      → ((n k : ℕ) → o.run_fault k (record job { attempt = n }) ≡ none)
      → delivery_attempt msg ≡ 1
      → Dict.has w.table job.job_id ≡ false
      → IsCompleted o self msg job w
          (requested_row job)
          (status_event job.job_id "ENQUEUED_OR_PENDING" 0 false none ∷ [])
          (process_message o self msg w)
  process_message-enqueued request o self msg job w among decoded accepted h run first absent =
      let (subject, new) =
        published-subject request msg.subject job _
          (enqueue_job-Accounted json_loads model_validate publish_fault job_id request) among in
      let r : IsRequest o self msg job = record {
        subject = subject;
        envelope = decoded;
        payload = accepted;
      } in
      subst
        (λ n.
          IsCompleted o self msg job w (requested_row (record job { attempt = n }))
            (status_event job.job_id "ENQUEUED_OR_PENDING" 0 false none ∷ [])
            (process_message o self msg w))
        (sym new) (first_delivery-IsCompleted o self msg job w h r run first absent)
