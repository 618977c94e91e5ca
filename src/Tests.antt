-- ===== src/Tests.antt =====
-- Concrete inputs: the external functions and databases that the examples run on, and the examples.
mod Externals
mod Accounts
mod Users
mod Sessions
mod Updates
mod Roles
mod Coding
mod Grants
mod Requests
mod Addresses
mod Logins
mod Factors
mod Handlers
