-- ===== src/Assistant.antt =====
-- The assistant backend, apps/assistant-backend/app/services: what stands behind the web routes.
pub mod Calls
pub mod Sequences
pub mod Updates
pub mod Watch
pub mod UserConfig
pub mod Chat
pub mod Conversations
pub mod Journals
mod Samples
mod SettingSamples
mod JournalSamples
mod CacheSamples
