-- ===== src/Assistant/Watch/Ending.antt =====
-- How the status stream of a job ends.
use exobrain.Prelude.{
  ℕ, String, ◌≡◌, refl, ap, true, false, Option, none, some, List, [], ◌∷◌, ◌++◌, map, All, if_ind,
}
use exobrain.Assistant.Updates.{StatusCode}
use exobrain.Assistant.Watch.{
  JobEvent, StreamEvent, WatchError, watch_error_of, status_of, done_of, watch_update_job,
}

abbrev error_of : Option StatusCode → Option WatchError
error_of none = none
error_of (some code) = some (watch_error_of code)

module _ (state_name : ℕ → String) where
  -- The stream ends with the first terminal event, or with the upstream.
  pub data IsEnded (events : List JobEvent) (fault : Option StatusCode)
      : List StreamEvent × Option WatchError → Type 0 where
    at_terminal :
        (before : List JobEvent) (last : JobEvent) (later : List JobEvent)
        → events ≡ before ++ (last ∷ later)
        → All (λ e. e.terminal ≡ false) before
        → last.terminal ≡ true
        → IsEnded events fault (
          map (status_of state_name) before
              ++ (status_of state_name last ∷ done_of state_name last ∷ []),
          none,
        )
    with_upstream :
        All (λ e. e.terminal ≡ false) events
        → IsEnded events fault (map (status_of state_name) events, error_of fault)

  IsEnded-cons :
      (e : JobEvent) (events : List JobEvent) (fault : Option StatusCode)
      (result : List StreamEvent × Option WatchError)
      → e.terminal ≡ false
      → IsEnded events fault result
      → IsEnded (e ∷ events) fault (status_of state_name e ∷ result.0, result.1)
  IsEnded-cons e events fault _ n (at_terminal before last later parts quiet t) =
      at_terminal (e ∷ before) last later (ap (λ r. e ∷ r) parts) (n, quiet) t
  IsEnded-cons e events fault _ n (with_upstream quiet) = with_upstream (n, quiet)

  -- The client receives a status for each event up to the first terminal one, then `done` for it and
  -- no exception, whatever would follow; if no event is terminal, it receives a status for each, no
  -- `done`, and the exception for the code that the upstream raises, if it raises one.
  pub watch_update_job-IsEnded :
      (events : List JobEvent) (fault : Option StatusCode)
      → IsEnded events fault (watch_update_job state_name events fault)
  unfolding watch_update_job
  watch_update_job-IsEnded [] none = with_upstream tt
  watch_update_job-IsEnded [] (some code) = with_upstream tt
  watch_update_job-IsEnded (e ∷ events) fault =
      if_ind (IsEnded (e ∷ events) fault) e.terminal (λ t. at_terminal [] e events refl tt t)
        λ n. IsEnded-cons e events fault _ n (watch_update_job-IsEnded events fault)
