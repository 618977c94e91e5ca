-- ===== src/Service.antt =====
-- backend/src/services: the rules of the business, each call with its checks and its transaction.
pub mod Reauth
pub mod StepUp
pub mod ModuleUnlock
pub mod Departments
pub mod Passwords
pub mod Users
pub mod Roles
pub mod Auth
pub mod Mfa
pub mod Login
