-- ===== src/Jobs/Contracts.antt =====
-- contracts.py: what the orchestrator reads and publishes. `P` is the type of decoded payloads.
-- The times that stamp events and rows are not modelled: nothing reads them back.
use exobrain.Prelude.{ℕ, String, Bool, Option}

pub record JobEnvelope (P : Type 0) : Type 0 where
  pub schema_version : ℕ
  pub job_id : String
  pub job_type : String
  pub correlation_id : String
  pub payload : P
  pub attempt : ℕ

pub record JobResultEvent : Type 0 where
  pub job_id : String
  pub job_type : String
  pub status : String
  pub correlation_id : String
  pub attempt : ℕ
  pub detail : Option String

pub record JobStatusEvent : Type 0 where
  pub job_id : String
  pub state : String
  pub attempt : ℕ
  pub detail : Option String
  pub terminal : Bool

pub record DeadLetterEvent : Type 0 where
  pub reason : String
  pub detail : String
  pub raw_message : String

-- What is published, before it is encoded.
pub data Event : Type 0 where
  result : JobResultEvent → Event
  status : JobStatusEvent → Event
  dead_letter : DeadLetterEvent → Event
