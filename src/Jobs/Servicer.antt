-- ===== src/Jobs/Servicer.antt =====
-- JobOrchestratorServicer of transport/grpc/service.py: the three calls of the service. A call of
-- `context.abort` raises, so what follows it does not run.
pub mod Watching
pub mod Enqueueing
pub mod Delivered
use exobrain.Prelude.{
  ℕ, String, Bool, true, false, not, Option, none, some, List, [], ◌∷◌, ◌++◌, ◌==◌, if◌then◌else◌,
}
use exobrain.Prelude.Json.{Json, null, int, text, list, dict, entries, object, ℤ}
use exobrain.Prelude.Result.{Result, ok, raised, ◌>>=◌}
use exobrain.Prelude.Text.{concat}
use exobrain.Jobs.Contracts.{JobEnvelope, JobStatusEvent}
use exobrain.Jobs.Action.{Row}
use exobrain.Jobs.Orchestrator.{knowledge_update_type}
use exobrain.Jobs.Lifecycle.{
  StatusReply, status_snapshot_to_reply, status_snapshot_to_event, job_status_event_to_proto,
}

-- uuid.UUID, as a test on texts
module _ (is_uuid : String → Bool) where
  unfoldable pub validate_job_id : String → Option String
  validate_job_id job_id =
      if job_id == "" then none else if is_uuid job_id then some job_id else none

  require_job_id : String → Result String
  require_job_id job_id = elim (validate_job_id job_id) [
    | none ↦ raised "INVALID_ARGUMENT: job_id must be a valid UUID"
    | some valid ↦ ok valid
  ]

-- The lookup of a job: where one is configured, it gives the row with the text of its id, none where
-- there is no such job, or raises.
abbrev pub Fetch : Type 0 → Type 0
Fetch P = Option (String → Result (Option (String × Row P)))

module _ {P : Type 0} where
  abbrev found : Option (String × Row P) → Result (String × Row P)
  found none = raised "NOT_FOUND: job not found"
  found (some status) = ok status

  pub look_up : Fetch P → String → Result (String × Row P)
  look_up none job_id = raised "UNIMPLEMENTED: status lookup is not configured"
  look_up (some fetch) job_id = fetch job_id >>= found

module _ (is_uuid : String → Bool) {P : Type 0} (fetch : Fetch P) where
  pub get_job_status : String → Result StatusReply
  get_job_status requested = do
    job_id ← require_job_id is_uuid requested
    status ← look_up fetch job_id
    status_snapshot_to_reply status.0 status.1

-- How a stream ended: at a terminal event, because the client cancelled it, because the
-- subscription ended, or by an exception.
pub data Ending : Type 0 where
  closed cancelled exhausted : Ending
  failed : String → Ending

-- What a stream sent, how it ended, and whether its subscription was opened and given up.
pub record Stream : Type 0 where
  pub replies : List StatusReply
  pub ending : Ending
  pub subscribed : Bool
  pub unsubscribed : Bool

-- One item of the subscription: whether the client has cancelled by then, and the decoded payload.
pub record Delivery : Type 0 where
  pub is_cancelled : Bool
  pub event : Result JobStatusEvent

-- A subscription: what it delivers, and, where its `unsubscribe` is callable, the exception that the
-- call of it raises, if it does.
pub record Subscription : Type 0 where
  pub deliveries : List Delivery
  pub unsubscribe : Option (Option String)

abbrev prepend : StatusReply → List StatusReply × Ending → List StatusReply × Ending
prepend reply (replies, ending) = (reply ∷ replies, ending)

-- The rest of the loop after a reply was sent.
abbrev after_reply : Result StatusReply → List StatusReply × Ending → List StatusReply × Ending
after_reply (raised e) rest = ([], failed e)
after_reply (ok reply) rest = if reply.terminal then (reply ∷ [], closed) else prepend reply rest

abbrev on_event :
    String → Result JobStatusEvent → List StatusReply × Ending → List StatusReply × Ending
on_event job_id (raised e) rest = ([], failed e)
on_event job_id (ok event) rest =
    if not (event.job_id == job_id)
    then rest
    else after_reply (job_status_event_to_proto event) rest

-- The loop over the subscription.
pub forward : String → List Delivery → List StatusReply × Ending
forward job_id [] = ([], exhausted)
forward job_id (d ∷ subscription) =
    let rest = forward job_id subscription in
    if d.is_cancelled then ([], cancelled) else on_event job_id d.event rest

abbrev not_subscribed : List StatusReply → Ending → Stream
not_subscribed replies ending = record {
  replies = replies;
  ending = ending;
  subscribed = false;
  unsubscribed = false;
}

-- The `finally` block: how the stream ends, and whether the subscription was given up.
abbrev pub released : Option (Option String) → Ending → Ending × Bool
released none ending = (ending, false)
released (some none) ending = (ending, true)
released (some (some exc)) ending = (failed exc, true)

abbrev pub finish : List StatusReply → Ending × Bool → Stream
finish replies (ending, unsubscribed) = record {
  replies = replies;
  ending = ending;
  subscribed = true;
  unsubscribed = unsubscribed;
}

abbrev pub follow_subscription : String → List StatusReply → Result Subscription → Stream
follow_subscription job_id sent (raised e) = not_subscribed sent (failed e)
follow_subscription job_id sent (ok subscription) =
    let (replies, ending) = forward job_id subscription.deliveries in
    finish (sent ++ replies) (released subscription.unsubscribe ending)

-- From the subscription on.
follow : String → (String → Result Subscription) → List StatusReply → Stream
unfolding forward
follow job_id subscribe sent =
    follow_subscription job_id sent (subscribe (concat ("jobs.status." ∷ job_id ∷ [])))

-- `yield current`, and the return if it is terminal.
send_current : String → (String → Result Subscription) → Result StatusReply → Stream
send_current job_id subscribe (raised e) = not_subscribed [] (failed e)
send_current job_id subscribe (ok current) =
    if current.terminal
    then not_subscribed (current ∷ []) closed
    else follow job_id subscribe (current ∷ [])

module _ {P : Type 0} (fetch : Fetch P)
    (subscribe_job_status : Option (String → Result Subscription)) where
  watch_configured : String → Bool → Option (String → Result Subscription) → Stream
  watch_configured job_id include_current none =
      not_subscribed [] (failed "UNIMPLEMENTED: status stream is not configured")
  watch_configured job_id include_current (some subscribe) =
      if include_current
      then send_current job_id subscribe
          (look_up fetch job_id >>= λ (k, row). status_snapshot_to_event k row)
      else follow job_id subscribe []

  watch_valid : Bool → Result String → Stream
  watch_valid include_current (raised e) = not_subscribed [] (failed e)
  watch_valid include_current (ok job_id) =
      watch_configured job_id include_current subscribe_job_status

  pub watch_job_status : (String → Bool) → String → Bool → Stream
  watch_job_status is_uuid requested include_current =
      watch_valid include_current (require_job_id is_uuid requested)
