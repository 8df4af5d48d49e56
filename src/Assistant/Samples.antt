-- ===== src/Assistant/Samples.antt =====
-- Messages, settings and a stream, on which the theorems about the assistant backend are applied.
use exobrain.Prelude.{
  ℕ, zero, suc, String, ◌⊎◌, inl, inr, refl, Bool, true, false, Option, none, some, List, [], ◌∷◌,
}
use exobrain.Assistant.Sequences as S
use exobrain.Assistant.Sequences.Gathering.{IsPartition}
use exobrain.Assistant.Sequences.Bounds.{list_uncommitted_message_sequences-IsPartition}
use exobrain.Assistant.Updates.{
  Store, StatusCode, deadline_exceeded, unavailable, enqueue_update_job,
}
use exobrain.Assistant.Watch.{JobEvent, watch_update_job}
use exobrain.Assistant.Watch.Ending.{IsEnded, watch_update_job-IsEnded}
use exobrain.Assistant.Updates.Committed.{EndsWell, enqueue_update_job-EndsWell}

-- Three messages of two days; the first was committed before.
abbrev message_of : String → String → String → Bool → S.Message
message_of id reference content committed = record {
  id = id;
  reference = reference;
  role = "user";
  content = some content;
  sequence = 1;
  created_at = none;
  committed_to_knowledge_base = committed;
}

abbrev messages : List S.Message
messages =
    message_of "m1" "2026/02/18" "Met Ada." true
    ∷ message_of "m2" "2026/02/18" "Ada works on engines." false
    ∷ message_of "m3" "2026/02/19" "Engines need notes." false
    ∷ []

abbrev store : Store
store = record { messages = messages; enqueued = [] }

-- The second job is refused.
abbrev publish_once : ℕ → (StatusCode × Bool) ⊎ String
publish_once zero = inr "job-1"
publish_once (suc n) = inl (deadline_exceeded, true)

abbrev publish_all : ℕ → (StatusCode × Bool) ⊎ String
publish_all n = inr "job-1"

abbrev no_fault : ℕ → Option String
no_fault n = none

list_uncommitted_message_sequences-IsPartition_example :
    IsPartition 4 (S.fetch messages none) (S.list_uncommitted_message_sequences 4 messages none)
list_uncommitted_message_sequences-IsPartition_example =
    list_uncommitted_message_sequences-IsPartition 4 messages none

enqueue_update_job-EndsWell_example :
    EndsWell publish_all no_fault no_fault 4 "user-1"
      (some "2026/02/18")
      store
      (enqueue_update_job publish_all no_fault no_fault 4 "user-1" (some "2026/02/18") store)
enqueue_update_job-EndsWell_example =
    enqueue_update_job-EndsWell publish_all no_fault no_fault 4 "user-1"
      (record { publishes = λ n. ("job-1", refl); fetches = λ n. refl; marks = λ n. refl })
      (some "2026/02/18") store

abbrev event_of : ℕ → Bool → JobEvent
event_of state terminal = record {
  job_id = "job-1";
  state = state;
  attempt = 1;
  detail = "";
  terminal = terminal;
  emitted_at = "2026-02-19T10:00:00Z";
}

abbrev job_events : List JobEvent
job_events = event_of 2 false ∷ event_of 4 true ∷ event_of 2 false ∷ []

abbrev state_name : ℕ → String
state_name n = "STATE"

watch_update_job-IsEnded_example :
    IsEnded state_name job_events
      (some unavailable)
      (watch_update_job state_name job_events (some unavailable))
watch_update_job-IsEnded_example = watch_update_job-IsEnded state_name job_events (some unavailable)
