-- ===== src/Profile.antt =====
-- Launch profiles: backend/src/llamawebui/domain/argument_catalog.py, profile_arguments.py and
-- model_profile.py.
pub mod Value
mod Tests
pub mod Catalog
pub mod Coerce
pub mod Emit
pub mod CommandLine
pub mod Validate
pub mod Legacy
