-- ===== src/Manifest.antt =====
-- src/service_manifest/modules/manifest: the parsed manifest and its helpers.
pub mod Model
pub mod Env
pub mod Cycle
pub mod ScopePath
pub mod Violation
pub mod Validator
pub mod Toml
pub mod Reader
pub mod ExtReader
