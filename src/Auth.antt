-- ===== src/Auth.antt =====
-- Accounts, roles and sessions of the control plane: backend/src/llamawebui/services/
-- auth_service.py and authorization.py.
pub mod State
pub mod Privileges
pub mod Roles
pub mod Users
pub mod Sessions
pub mod Administrators
pub mod Resolve
pub mod Access
pub mod Startup
pub mod HashCache
mod Tests
