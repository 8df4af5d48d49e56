-- ===== src/Jobs.antt =====
-- The job orchestrator, apps/job-orchestrator/app: the lifecycle of an asynchronous job.
pub mod Contracts
pub mod Action
pub mod Repository
pub mod Orchestrator
pub mod Runner
pub mod Lifecycle
pub mod Servicer
mod Samples
