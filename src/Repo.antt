-- ===== src/Repo.antt =====
-- backend/src/repositories: the SQL of each function, read as a function on the tables. A write
-- takes the database and returns the new one; `now` is the transaction's time.
pub mod Departments
pub mod Users
pub mod Permissions
pub mod Roles
pub mod Mfa
pub mod Sessions
pub mod AuditLogs
pub mod StepUp
pub mod ModuleUnlock
pub mod Organizations
