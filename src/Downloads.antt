-- ===== src/Downloads.antt =====
-- Downloads: backend/src/llamawebui/domain/download_job.py (the state rules),
-- domain/model_manifest.py (the groups of files), services/download_registry.py (the table of jobs),
-- services/download_worker.py and services/download_coordinator.py.
pub mod Job
pub mod Registry
pub mod Publish
pub mod Retry
pub mod Plan
pub mod Manifest
pub mod Worker
pub mod Coordinator
