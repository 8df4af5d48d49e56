-- ===== src/Jobs/Servicer/Enqueueing.antt =====
-- EnqueueJob of transport/grpc/service.py: from a request to the messages that it publishes.
use exobrain.Prelude.{
  ℕ, zero, String, ◌≡◌, refl, ◌⊎◌, inl, inr, false, not, Option, none, some, List, [], ◌∷◌, ◌==◌,
  map, if◌then◌else◌, if_ind,
}
use exobrain.Prelude.Json.{Json, null, int, text, list, dict, object, ℤ, pos}
use exobrain.Prelude.Result.{Result, ok, raised, ◌>>=◌}
use exobrain.Prelude.Text.{concat}
use exobrain.Jobs.Contracts.{JobEnvelope, JobStatusEvent}
use exobrain.Jobs.Orchestrator.{knowledge_update_type}

-- The messages of the protocol, which have the fields of the models of contracts.py.
pub record UpdateMessage : Type 0 where
  pub role : String
  pub content : String
  pub sequence : ℤ
  pub created_at : String

pub record TypedPayload : Type 0 where
  pub journal_reference : String
  pub messages : List UpdateMessage
  pub requested_by_user_id : String

-- The `oneof` of the request.
pub data PayloadCase : Type 0 where
  knowledge_update : TypedPayload → PayloadCase
  payload_json : String → PayloadCase
  unset : PayloadCase

pub record EnqueueJobRequest : Type 0 where
  pub job_type : String
  pub user_id : String
  pub payload : PayloadCase

-- What is published, before it is encoded.
pub data Published (P : Type 0) : Type 0 where
  envelope : JobEnvelope P → Published P
  job_status : JobStatusEvent → Published P

module _ {F : Type 0} where
  -- `value or None`
  abbrev text_or_none : String → Json F
  text_or_none s = if s == "" then null else text s

  abbrev int_or_none : ℤ → Json F
  int_or_none (pos zero) = null
  int_or_none n = int n

  abbrev message_dict : UpdateMessage → Json F
  message_dict message = dict (
      ("role", text message.role)
      ∷ ("content", text_or_none message.content)
      ∷ ("sequence", int_or_none message.sequence)
      ∷ ("created_at", text_or_none message.created_at)
      ∷ [])

  abbrev decoded_object : Result (Json F) → Result (Json F)
  decoded_object (ok (object fields)) = ok (object fields)
  decoded_object (ok _) = raised "payload_json must decode to an object"
  decoded_object (raised e) = raised e

  module _ (json_loads : String → Result (Json F)) where
    abbrev typed_payload : PayloadCase → Result (Json F)
    typed_payload (knowledge_update typed) = ok (
        dict (
          ("journal_reference", text typed.journal_reference)
          ∷ ("messages", list (map message_dict typed.messages))
          ∷ ("requested_by_user_id", text typed.requested_by_user_id)
          ∷ []))
    typed_payload _ = raised "knowledge_update payload is required for knowledge.update jobs"

    abbrev json_payload : PayloadCase → Result (Json F)
    json_payload (payload_json s) = decoded_object (json_loads s)
    json_payload _ = raised "payload_json is required for non-knowledge.update jobs"

    unfoldable pub resolve_payload : EnqueueJobRequest → Result (Json F)
    resolve_payload request =
        if request.job_type == knowledge_update_type
        then typed_payload request.payload
        else json_payload request.payload

-- `model_validate` is the payload model's check and dump, `publish_fault` the exception that the
-- publication of that number raises, `job_id` the new uuid.
module _ {F P : Type 0} (json_loads : String → Result (Json F)) (model_validate : Json F → Result P)
    (publish_fault : ℕ → Option String) (job_id : String) where
  abbrev new_envelope : EnqueueJobRequest → P → JobEnvelope P
  new_envelope request payload = record {
    schema_version = 1;
    job_id = job_id;
    job_type = request.job_type;
    correlation_id = request.user_id;
    payload = payload;
    attempt = 0;
  }

  abbrev pub request_message : EnqueueJobRequest → P → String × Published P
  request_message request payload = (
    concat ("jobs." ∷ request.job_type ∷ ".requested" ∷ []),
    envelope (new_envelope request payload),
  )

  abbrev pub pending_message : String × Published P
  pending_message = (
    concat ("jobs.status." ∷ job_id ∷ []),
    job_status (record {
      job_id = job_id;
      state = "ENQUEUED_OR_PENDING";
      attempt = 0;
      detail = none;
      terminal = false;
    }),
  )

  abbrev publish_second :
      EnqueueJobRequest → P → Option String → Result String × List (String × Published P)
  publish_second request payload (some e) = (raised e, request_message request payload ∷ [])
  publish_second request payload none =
      (ok job_id, request_message request payload ∷ pending_message ∷ [])

  -- The `except` clause, and the first publication with its outcome.
  abbrev publish_job_from :
      EnqueueJobRequest → Result P → Option String → Result String × List (String × Published P)
  publish_job_from request (raised e) o = (raised (concat ("INVALID_ARGUMENT: " ∷ e ∷ [])), [])
  publish_job_from request (ok payload) (some e) = (raised e, [])
  publish_job_from request (ok payload) none = publish_second request payload (publish_fault 1)

  -- The reply or the exception, and what was published.
  unfoldable pub enqueue_job : EnqueueJobRequest → Result String × List (String × Published P)
  unfolding resolve_payload
  enqueue_job request =
      if request.job_type == ""
      then (raised "INVALID_ARGUMENT: job_type is required", [])
      else if request.user_id == ""
      then (raised "INVALID_ARGUMENT: user_id is required", [])
      else if not (request.job_type == knowledge_update_type)
      then (
        raised (concat ("INVALID_ARGUMENT: unsupported job_type: " ∷ request.job_type ∷ [])),
        [],
      )
      else publish_job_from request (resolve_payload json_loads request >>= model_validate)
          (publish_fault 0)

  -- What a call may leave published: with a reply the request and the pending event, in this order;
  -- with an exception nothing, or the request alone, if publishing the event was what raised.
  abbrev pub Accounted : EnqueueJobRequest → Result String × List (String × Published P) → Type 0
  Accounted request (ok reply, published) =
      (payload : P) × (reply ≡ job_id)
      × ((resolve_payload json_loads request >>= model_validate) ≡ ok payload)
      × (published ≡ request_message request payload ∷ pending_message ∷ [])
  Accounted request (raised e, published) =
      (published ≡ [])
      ⊎ ((payload : P) × (publish_fault 1 ≡ some e)
          × (published ≡ request_message request payload ∷ []))

  publish_second-Accounted :
      (request : EnqueueJobRequest) (payload : P)
      → (resolve_payload json_loads request >>= model_validate) ≡ ok payload
      → (o : Option String) → publish_fault 1 ≡ o
      → Accounted request (publish_second request payload o)
  publish_second-Accounted request payload valid (some e) fault = inr (payload, fault, refl)
  publish_second-Accounted request payload valid none fault = (payload, refl, valid, refl)

  publish_job-Accounted :
      (request : EnqueueJobRequest) (r : Result P)
      → (resolve_payload json_loads request >>= model_validate) ≡ r
      → (o : Option String) → Accounted request (publish_job_from request r o)
  publish_job-Accounted request (raised e) valid o = inl refl
  publish_job-Accounted request (ok payload) valid (some e) = inl refl
  publish_job-Accounted request (ok payload) valid none =
      publish_second-Accounted request payload valid (publish_fault 1) refl

  -- A call replies with the new id only after it has published the request and then the pending
  -- event, for a payload that its model accepts. A call that raises has published nothing, unless
  -- it was the pending event that could not be published.
  pub enqueue_job-Accounted :
      (request : EnqueueJobRequest) → Accounted request (enqueue_job request)
  unfolding enqueue_job
  enqueue_job-Accounted request =
      if_ind (Accounted request) (request.job_type == "") (λ _. inl refl)
        λ _.
          if_ind (Accounted request) (request.user_id == "") (λ _. inl refl)
            λ _.
              if_ind (Accounted request) (not (request.job_type == knowledge_update_type))
                (λ _. inl refl) (λ _. publish_job-Accounted request _ refl (publish_fault 0))
