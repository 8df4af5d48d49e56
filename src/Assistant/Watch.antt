-- ===== src/Assistant/Watch.antt =====
-- watch_update_job of knowledge_service.py: the status stream of a job, as the client receives it.
pub mod Ending
use exobrain.Prelude.{
  ℕ, String, Bool, true, false, Option, none, some, List, [], ◌∷◌, if◌then◌else◌,
}
use exobrain.Assistant.Updates.{
  StatusCode, deadline_exceeded, unavailable, not_found, permission_denied, unauthenticated,
}

-- An event of the job orchestrator; its state is a number of the protocol.
pub record JobEvent : Type 0 where
  pub job_id : String
  pub state : ℕ
  pub attempt : ℕ
  pub detail : String
  pub terminal : Bool
  pub emitted_at : String

-- The events of the client's stream: `status` with its payload, and `done`.
pub data StreamEvent : Type 0 where
  status : String → String → ℕ → String → Bool → String → StreamEvent
  done : String → String → Bool → StreamEvent

pub data WatchError : Type 0 where
  job_not_found access_denied upstream_unavailable watch_error : WatchError

abbrev pub watch_error_of : StatusCode → WatchError
watch_error_of not_found = job_not_found
watch_error_of permission_denied = access_denied
watch_error_of unauthenticated = access_denied
watch_error_of deadline_exceeded = upstream_unavailable
watch_error_of unavailable = upstream_unavailable
watch_error_of code = watch_error

-- `state_name` is JobLifecycleState.Name of the generated code.
module _ (state_name : ℕ → String) where
  abbrev pub status_of : JobEvent → StreamEvent
  status_of e = status e.job_id (state_name e.state) e.attempt e.detail e.terminal e.emitted_at

  abbrev pub done_of : JobEvent → StreamEvent
  done_of e = done e.job_id (state_name e.state) e.terminal

  -- The events that the client receives, and the exception that it gets then. The upstream yields
  -- `events`, and then raises the fault, if there is one.
  unfoldable pub watch_update_job :
      List JobEvent → Option StatusCode → List StreamEvent × Option WatchError
  watch_update_job [] none = ([], none)
  watch_update_job [] (some code) = ([], some (watch_error_of code))
  watch_update_job (e ∷ events) fault =
      let (rest, raised) = watch_update_job events fault in
      if e.terminal then (status_of e ∷ done_of e ∷ [], none) else (status_of e ∷ rest, raised)
