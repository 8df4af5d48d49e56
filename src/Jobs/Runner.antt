-- ===== src/Jobs/Runner.antt =====
-- LocalProcessWorkerRunner of worker/process_runner.py, with worker/job_registry.py: a job as a
-- process of its own.
pub mod Success
use exobrain.Prelude.{
  ℕ, String, Bool, true, false, Option, none, some, List, [], ◌∷◌, ◌==◌, ◌||◌, map, nat_eq,
  if◌then◌else◌,
}
use exobrain.Prelude.Dict
use exobrain.Prelude.Json.{ℤ, pos, negsuc}
use exobrain.Prelude.Result.{Result, ok, raised, ◌>>=◌, ◌>>◌}
use exobrain.Prelude.Text.{concat, strip_text}
use exobrain.Jobs.Contracts.{JobEnvelope}

-- JOB_MODULE_BY_TYPE
abbrev pub job_module_by_type : List (String × String)
job_module_by_type = ("knowledge.update", "app.worker.jobs.knowledge_update") ∷ []

-- A process that ended, with its output; `stderr` decodes, or raises what str.decode raises.
pub record EndedProcess : Type 0 where
  pub returncode : ℤ
  pub stdout : List ℕ
  pub stderr : List ℕ

-- The job's id in the name of its log file, on code points: `is_alnum` is str.isalnum.
pub safe_job_id : (ℕ → Bool) → List ℕ → List ℕ
safe_job_id is_alnum job_id =
    map (λ c. if is_alnum c || (nat_eq c b'-' || nat_eq c b'_') then c else b'_') job_id

abbrev is_zero : ℤ → Bool
is_zero (pos n) = nat_eq n 0
is_zero (negsuc n) = false

-- `err or …`
abbrev failure_text : String → String → String
failure_text job_type err =
    if err == "" then concat ("worker module failed for " ∷ job_type ∷ []) else err

-- The calls: the process, of which module and job, the writing of its log file, and the strict
-- decoding of its errors. Each of them may raise.
module _ {P : Type 0} (create_subprocess : String → JobEnvelope P → Result EndedProcess)
    (write_job_output_log : JobEnvelope P → String → EndedProcess → Result (Unit {0}))
    (decode_utf8 : List ℕ → Result String) where
  abbrev outcome : JobEnvelope P → EndedProcess → Result (Unit {0})
  outcome job process =
      if is_zero process.returncode
      then ok tt
      else (decode_utf8 process.stderr >>= λ err.
          raised (failure_text job.job_type (strip_text err)))

  abbrev run_module : JobEnvelope P → Option String → Result (Unit {0})
  run_module job none =
      raised (concat ("no worker module configured for job type '" ∷ job.job_type ∷ "'" ∷ []))
  run_module job (some module_name) = create_subprocess module_name job >>= λ process.
      write_job_output_log job module_name process >>= λ written. outcome job process

  pub run_job : JobEnvelope P → Result (Unit {0})
  run_job job = run_module job (Dict.get job_module_by_type job.job_type)
