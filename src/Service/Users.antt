-- ===== src/Service/Users.antt =====
-- backend/src/services/users.rs, without `list` and `get`: the checks, the requests, and the calls.
pub mod Checks
pub mod Requests
pub mod Profile
pub mod Deletion
pub mod RoleGrants
pub mod SuperAdmin
pub mod Privileges
pub mod Removal
pub mod Reactivation
