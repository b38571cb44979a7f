-- ===== src/Orchestrator.antt =====
-- src/service_orchestrator/modules/orchestrate/orchestrator_service.py, by its operations.
pub mod Host
pub mod Context
pub mod Order
pub mod Environment
pub mod Wait
pub mod Prune
pub mod Start
pub mod Stop
pub mod Status
pub mod Effects
pub mod Preflight
pub mod Trails
pub mod Lines
pub mod Plan
pub mod Restart
pub mod Untouched
pub mod Selection
pub mod Waiting
pub mod Idle
pub mod Retries
pub mod Partial
pub mod Fresh
pub mod Results
