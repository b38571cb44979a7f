-- ===== src/Manifest/Reader.antt =====
-- src/service_manifest/modules/manifest/reader.py.
pub mod Errors
pub mod Merge
pub mod Entry
pub mod Services
pub mod Document
pub mod Keyed
pub mod Overlay
