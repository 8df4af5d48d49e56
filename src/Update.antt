-- ===== src/Update.antt =====
-- The knowledge.update worker, apps/job-orchestrator/app/worker/jobs/knowledge_update: from a batch
-- of messages to the changes of the knowledge graph.
pub mod Retry
pub mod Candidates
pub mod Decision
pub mod Keyed
pub mod Pairs
pub mod Properties
pub mod Blocks
pub mod Edges
pub mod Merge
pub mod FinalGraphs
pub mod Mentions
pub mod Preflight
mod Samples
mod GraphSamples
