-- ===== src/Jobs/Lifecycle.antt =====
-- The lifecycle states that clients see: _to_lifecycle_state of transport/grpc/service.py, and the
-- replies that are built from rows and events.
pub mod Rows
use exobrain.Prelude.{
  ℕ, String, Bool, true, false, Option, none, some, List, [], ◌∷◌, ◌==◌, ◌&&◌, if◌then◌else◌,
}
use exobrain.Prelude.Result.{Result, ok, raised, ◌>>=◌}
use exobrain.Prelude.Text.{codes, lower, one_of, concat}
use exobrain.Jobs.Contracts.{JobStatusEvent}
use exobrain.Jobs.Action.{Row}

pub data LifecycleState : Type 0 where
  enqueued_or_pending started retrying succeeded failed_final : LifecycleState

to_lifecycle_state : String → Bool → Result LifecycleState
unfolding lower one_of
to_lifecycle_state state is_terminal =
    let normalized = lower (codes state) in
    if one_of normalized ("requested" ∷ "pending" ∷ "enqueued_or_pending" ∷ [])
    then ok enqueued_or_pending
    else if one_of normalized ("processing" ∷ "started" ∷ [])
    then ok started
    else if one_of normalized ("retrying" ∷ [])
    then ok retrying
    else if one_of normalized ("completed" ∷ "succeeded" ∷ [])
    then ok succeeded
    else if one_of normalized ("failed" ∷ []) && is_terminal
    then ok failed_final
    else if one_of normalized ("failed" ∷ [])
    then ok retrying
    else raised (concat ("unsupported lifecycle state: " ∷ state ∷ []))

-- GetJobStatusReply, and the JobStatusEvent of the protocol: they have the same fields.
pub record StatusReply : Type 0 where
  pub job_id : String
  pub state : LifecycleState
  pub attempt : ℕ
  pub detail : String
  pub terminal : Bool

abbrev or_empty : Option String → String
or_empty none = ""
or_empty (some s) = s

-- `job_id` is str(status["job_id"]), the text of the id of the row.
module _ {P : Type 0} where
  unfoldable pub status_snapshot_to_reply : String → Row P → Result StatusReply
  unfolding to_lifecycle_state
  status_snapshot_to_reply job_id row = do
    state ← to_lifecycle_state row.status row.is_terminal
    ok (record {
      job_id = job_id;
      state = state;
      attempt = row.attempt;
      detail = or_empty row.last_error;
      terminal = row.is_terminal;
    })

  unfoldable pub status_snapshot_to_event : String → Row P → Result StatusReply
  unfolding to_lifecycle_state
  status_snapshot_to_event job_id row = do
    state ← to_lifecycle_state row.status row.is_terminal
    ok (record {
      job_id = job_id;
      state = state;
      attempt = row.attempt;
      detail = or_empty row.last_error;
      terminal = row.is_terminal;
    })

-- getattr(job_orchestrator_pb2, name), at the names of the enumeration
named_state : String → Result LifecycleState
named_state name =
    if name == "ENQUEUED_OR_PENDING"
    then ok enqueued_or_pending
    else if name == "STARTED"
    then ok started
    else if name == "RETRYING"
    then ok retrying
    else if name == "SUCCEEDED"
    then ok succeeded
    else if name == "FAILED_FINAL"
    then ok failed_final
    else raised name

unfoldable pub job_status_event_to_proto : JobStatusEvent → Result StatusReply
unfolding named_state
job_status_event_to_proto event = do
  state ← named_state event.state
  ok (record {
    job_id = event.job_id;
    state = state;
    attempt = event.attempt;
    detail = or_empty event.detail;
    terminal = event.terminal;
  })
