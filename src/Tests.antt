-- ===== src/Tests.antt =====
-- The theorems at work: each on a concrete case of the program.
mod Logs
pub mod Sessions
pub mod Manifests
mod Extensions
mod Backlogs
mod Processes
mod Scopes
