-- ===== src/Update/Retry.antt =====
-- _is_transient_error and _call_with_retry of core.py. The two
-- delays are in any unit of time, and the pauses in fifths of it.
pub mod Attempts
use exobrain.Prelude.{
  ℕ, zero, suc, ◌+◌, ◌-◌, ◌*◌, ◌^◌, min, String, Bool, true, false, not, Option, none, some, List,
  [], ◌∷◌, ◌++◌, ◌||◌, ◌&&◌, ◌==◌, leb, nat_eq, if◌then◌else◌,
}
use exobrain.Prelude.Text.{contains}

-- The status codes of gRPC that the test names, and the others.
pub data StatusCode : Type 0 where
  deadline_exceeded unavailable resource_exhausted internal other_code : StatusCode

-- What the test reads of an exception: a timeout or a gRPC error, the code of an AioRpcError, its
-- `status_code` and that of its `response`, where these are integers, and the name of its class.
pub record Exc : Type 0 where
  pub is_timeout_or_rpc_error : Bool
  pub aio_code : Option StatusCode
  pub has_status_code : Bool
  pub status_code : Option ℕ
  pub response_status_code : Option ℕ
  pub class_name : String
  pub message : String

abbrev is_transient_code : StatusCode → Bool
is_transient_code other_code = false
is_transient_code _ = true

abbrev is_transient_rpc : Option StatusCode → Bool
is_transient_rpc none = true
is_transient_rpc (some code) = is_transient_code code

abbrev is_server_error : Option ℕ → Bool
is_server_error none = false
is_server_error (some code) = leb 500 code && leb code 599

abbrev transient_http_error_names : List String
transient_http_error_names =
    "TimeoutException" ∷ "TransportError" ∷ "ConnectError" ∷ "ReadTimeout" ∷ "ConnectTimeout"
    ∷ "RemoteProtocolError" ∷ []

pub is_transient_error : Exc → Bool
is_transient_error exc =
    if exc.is_timeout_or_rpc_error
    then is_transient_rpc exc.aio_code
    else is_server_error (if exc.has_status_code then exc.status_code else exc.response_status_code)
      || contains transient_http_error_names exc.class_name

-- An outcome of an awaited call.
pub data Outcome (R : Type 0) : Type 0 where
  value : R → Outcome R
  error : Exc → Outcome R

-- The end of a retry loop: the value, the KnowledgeUpdateStepError around the last exception, or the
-- RuntimeError below the loop.
pub data Final (R : Type 0) : Type 0 where
  returned : R → Final R
  step_error : Exc → Final R
  loop_exhausted : Final R

-- What a run did: how often it called, and how long it slept after each call that it repeated.
pub record Run (R : Type 0) : Type 0 where
  pub final : Final R
  pub calls : ℕ
  pub sleeps : List ℕ

-- min(max_delay_seconds, base_delay_seconds * (2 ** (attempt - 1)))
unfoldable pub backoff : ℕ → ℕ → ℕ → ℕ
backoff base_delay max_delay attempt = min max_delay (base_delay * 2 ^ (attempt - 1))

-- `call n` is the outcome of the call of attempt n, and `uniform n a b` what random.uniform(a, b)
-- gives after it.
module _ {R : Type 0} (call : ℕ → Outcome R) (uniform : ℕ → ℕ → ℕ → ℕ)
    (max_attempts base_delay max_delay : ℕ) where
  abbrev after : ℕ → Run R → Run R
  after delay run = record { final = run.final; calls = suc run.calls; sleeps = delay ∷ run.sleeps }

  -- delay_seconds = backoff + random.uniform(0.0, backoff * 0.2), in fifths
  unfoldable pub delay_of : ℕ → ℕ
  unfolding backoff
  delay_of attempt =
      5 * backoff base_delay max_delay attempt
      + uniform attempt 0 (backoff base_delay max_delay attempt)

  -- The body of the loop at one attempt; `next` is the rest of the loop.
  attempt_once : ℕ → Outcome R → Run R → Run R
  unfolding delay_of
  attempt_once attempt (value v) next = record { final = returned v; calls = 1; sleeps = [] }
  attempt_once attempt (error exc) next =
      if not (is_transient_error exc) || leb max_attempts attempt
      then record { final = step_error exc; calls = 1; sleeps = [] }
      else after (delay_of attempt) next

  -- for attempt in range(attempt, attempt + rounds)
  attempts_from : ℕ → ℕ → Run R
  attempts_from zero attempt = record { final = loop_exhausted; calls = 0; sleeps = [] }
  attempts_from (suc rounds) attempt =
      let next = attempts_from rounds (attempt + 1) in attempt_once attempt (call attempt) next

  pub call_with_retry : Run R
  call_with_retry = attempts_from max_attempts 1
