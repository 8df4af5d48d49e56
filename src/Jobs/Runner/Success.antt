-- ===== src/Jobs/Runner/Success.antt =====
-- When a job's process counts as a success, and how its log file may be named.
use exobrain.Prelude.{
  ℕ, String, ◌≡◌, ◌≢◌, refl, ◌↔◌, Bool, true, false, Option, none, some, List, [], ◌∷◌, ◌||◌, arith,
  nat_eq, All, if◌then◌else◌, if_ind, subst, sym,
}
use exobrain.Prelude.Dict
use exobrain.Prelude.Json.{pos}
use exobrain.Prelude.Result.{Result, ok, >>=-eq-ok}
use exobrain.Jobs.Contracts.{JobEnvelope}
use exobrain.Jobs.Runner.{
  EndedProcess, job_module_by_type, safe_job_id, outcome, run_module, run_job,
}

safe_char :
    (is_alnum : ℕ → Bool) (c separator : ℕ)
    → is_alnum separator ≡ false
    → nat_eq separator b'-' || nat_eq separator b'_' ≡ false
    → (if is_alnum c || (nat_eq c b'-' || nat_eq c b'_') then c else b'_') ≢ separator
safe_char is_alnum c separator other plain =
    if_ind (λ x. x ≢ separator) (is_alnum c || (nat_eq c b'-' || nat_eq c b'_'))
      (λ kept e.
        separated (subst (λ x. is_alnum x || (nat_eq x b'-' || nat_eq x b'_') ≡ true) e kept))
      (λ replaced e. underscore (subst (λ x. nat_eq x b'-' || nat_eq x b'_' ≡ false) (sym e) plain))
  where
    separated : is_alnum separator || (nat_eq separator b'-' || nat_eq separator b'_') ≡ true → ⊥
    separated h = ground arith

    underscore : true ≡ false → ⊥
    underscore h = cc

-- The job's id in the name of its log file has neither a slash nor a backslash, provided that
-- str.isalnum holds for neither of them.
pub safe_job_id-All :
    (is_alnum : ℕ → Bool) (job_id : List ℕ)
    → is_alnum 47 ≡ false
    → is_alnum 92 ≡ false
    → All (λ c. (c ≢ 47) × (c ≢ 92)) (safe_job_id is_alnum job_id)
unfolding safe_job_id
safe_job_id-All is_alnum [] slash backslash = tt
safe_job_id-All is_alnum (c ∷ job_id) slash backslash = (
  (safe_char is_alnum c 47 slash refl, safe_char is_alnum c 92 backslash refl),
  safe_job_id-All is_alnum job_id slash backslash,
)

module _ {P : Type 0} (create_subprocess : String → JobEnvelope P → Result EndedProcess)
    (write_job_output_log : JobEnvelope P → String → EndedProcess → Result (Unit {0}))
    (decode_utf8 : List ℕ → Result String) where
  -- The job's process was created for its module, ended with code 0, and its log was written.
  pub record IsSuccess (job : JobEnvelope P) : Type 0 where
    pub module_name : String
    pub process : EndedProcess
    pub configured : Dict.get job_module_by_type job.job_type ≡ some module_name
    pub ended : create_subprocess module_name job ≡ ok process
    pub logged : write_job_output_log job module_name process ≡ ok tt
    pub code : process.returncode ≡ pos 0

  outcome-code :
      (job : JobEnvelope P) (process : EndedProcess)
      → outcome create_subprocess write_job_output_log decode_utf8 job process ≡ ok tt
      → process.returncode ≡ pos 0
  outcome-code job process h = ground arith

  module-IsSuccess :
      (job : JobEnvelope P) (m : Option String)
      → Dict.get job_module_by_type job.job_type ≡ m
      → run_module create_subprocess write_job_output_log decode_utf8 job m ≡ ok tt
      → IsSuccess job
  module-IsSuccess job none e h = absurd (cc)
  module-IsSuccess job (some module_name) e h =
      let (process, ended, rest) = >>=-eq-ok (create_subprocess module_name job) _ h in
      let (written, logged, rest) =
        >>=-eq-ok (write_job_output_log job module_name process) _ rest in
      record {
        module_name = module_name;
        process = process;
        configured = e;
        ended = ended;
        logged = logged;
        code = outcome-code job process rest;
      }

  -- A job runs without an exception exactly if a module is configured for its type, its process is
  -- created, its log is written, and the process ends with code 0.
  pub run_job-IsSuccess :
      (job : JobEnvelope P)
      → (run_job create_subprocess write_job_output_log decode_utf8 job ≡ ok tt) ↔ IsSuccess job
  unfolding run_job
  run_job-IsSuccess job = (
    module-IsSuccess job (Dict.get job_module_by_type job.job_type) refl,
    λ x. rw (x.configured, x.ended, x.logged, x.code) refl,
  )
