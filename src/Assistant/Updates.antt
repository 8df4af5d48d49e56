-- ===== src/Assistant/Updates.antt =====
-- enqueue_update_job of knowledge_service.py, with _message_payload and _mark_messages_committed.
pub mod Accounts
pub mod Accounting
mod Remaining
pub mod Committed
use exobrain.Prelude.{
  ℕ, ◌+◌, String, Bool, true, false, Option, none, some, List, [], ◌∷◌, ◌++◌, ◌⊎◌, inl, inr, length,
  map, if◌then◌else◌,
}
use exobrain.Prelude.Text.{contains}
use exobrain.Assistant.Calls.{
  Answer, Call, returned, failed, return, raise, raise_some, ◌>>=◌, ◌>>◌,
}
use exobrain.Assistant.Sequences.{Message, Row, list_uncommitted_message_sequences}

pub record MessagePayload : Type 0 where
  pub role : String
  pub content : Option String
  pub sequence : ℕ
  pub created_at : Option String

pub record UpdateJob : Type 0 where
  pub user_id : String
  pub job_type : String
  pub journal_reference : String
  pub messages : List MessagePayload
  pub requested_by_user_id : String

-- The codes of gRPC that the program tells apart.
pub data StatusCode : Type 0 where
  deadline_exceeded unavailable not_found permission_denied unauthenticated other_code : StatusCode

pub data EnqueueError : Type 0 where
  no_pending_messages upstream_unavailable enqueue_error index_error : EnqueueError
  database_error : String → EnqueueError

-- The messages of the user, in the order of the query, and the jobs that were enqueued.
pub record Store : Type 0 where
  pub messages : List Message
  pub enqueued : List UpdateJob

abbrev message_payload : Row → MessagePayload
message_payload row = record {
  role = row.message.role;
  content = row.message.content;
  sequence = row.message.sequence;
  created_at = row.message.created_at;
}

abbrev pub update_job : String → String → List Row → UpdateJob
update_job user_id reference rows = record {
  user_id = user_id;
  job_type = "knowledge.update";
  journal_reference = reference;
  messages = map message_payload rows;
  requested_by_user_id = user_id;
}

abbrev pub row_ids : List Row → List String
row_ids rows = map (λ row. row.message.id) rows

-- UPDATE messages SET committed_to_knowledge_base = TRUE WHERE id = ANY(ids)
abbrev pub commit : List String → Message → Message
commit ids m = record m {
  committed_to_knowledge_base = if contains ids m.id then true else m.committed_to_knowledge_base;
}

-- The except block around the call of the job publisher.
abbrev pub publish_error : StatusCode → EnqueueError
publish_error deadline_exceeded = upstream_unavailable
publish_error unavailable = upstream_unavailable
publish_error code = enqueue_error

-- job_ids[0]
abbrev pub first_id : List String → Call Store EnqueueError String
first_id [] = raise index_error
first_id (job_id ∷ job_ids) = return job_id

-- The calls, by the number of jobs that were enqueued before: the answer of the job orchestrator,
-- which is an id, or an exception with whether the orchestrator has enqueued the job all the same,
-- as after a deadline; and the exceptions of the query and of the update. An update that raises has
-- changed nothing.
module _ (publish : ℕ → (StatusCode × Bool) ⊎ String) (fetch_fault mark_fault : ℕ → Option String)
    (max_tokens : ℕ) where
  abbrev accept : UpdateJob → (StatusCode × Bool) ⊎ String → Call Store EnqueueError String
  accept job (inl (code, is_enqueued)) w = (
    failed (publish_error code),
    if is_enqueued then record w { enqueued = w.enqueued ++ (job ∷ []) } else w,
  )
  accept job (inr job_id) w = (returned job_id, record w { enqueued = w.enqueued ++ (job ∷ []) })

  unfoldable enqueue_job : UpdateJob → Call Store EnqueueError String
  enqueue_job job w = accept job (publish (length w.enqueued)) w

  unfoldable mark_messages_committed : List String → Call Store EnqueueError (Unit {0})
  mark_messages_committed [] w = return tt w
  mark_messages_committed (id ∷ ids) w =
      raise_some database_error (mark_fault (length w.enqueued))
        (λ w. (returned tt, record w { messages = map (commit (id ∷ ids)) w.messages })) w

  -- The body of the loop over the chunks.
  unfoldable pub enqueue_sequence : String → List Row → Call Store EnqueueError String
  unfolding enqueue_job mark_messages_committed ◌>>=◌
  enqueue_sequence user_id [] = raise index_error
  enqueue_sequence user_id (row ∷ rows) =
      enqueue_job (update_job user_id row.message.reference (row ∷ rows)) >>= λ job_id.
      mark_messages_committed (row_ids (row ∷ rows)) >> return job_id

  unfoldable pub enqueue_sequences :
      String → List (List Row) → Call Store EnqueueError (List String)
  unfolding enqueue_sequence
  enqueue_sequences user_id [] = return []
  enqueue_sequences user_id (rows ∷ rest) = enqueue_sequence user_id rows >>= λ job_id.
      enqueue_sequences user_id rest >>= λ job_ids. return (job_id ∷ job_ids)

  abbrev pub enqueue_found : String → List (List Row) → Call Store EnqueueError String
  unfolding enqueue_sequences ◌>>=◌
  enqueue_found user_id [] = raise no_pending_messages
  enqueue_found user_id (rows ∷ rest) = enqueue_sequences user_id (rows ∷ rest) >>= first_id

  unfoldable pub enqueue_update_job : String → Option String → Call Store EnqueueError String
  unfolding enqueue_found list_uncommitted_message_sequences
  enqueue_update_job user_id journal_reference w =
      raise_some database_error (fetch_fault (length w.enqueued))
        (enqueue_found user_id
          (list_uncommitted_message_sequences max_tokens w.messages journal_reference))
        w
