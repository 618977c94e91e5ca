-- ===== src/Lib.antt =====
-- The backend of arc-admin: accounts, roles, permissions, departments and sessions behind a REST
-- API, with a second factor, step-up grants and unlocked modules.
--
-- A request is authenticated by its session cookie (backend/src/auth.rs), which a login has set,
-- and by the CSRF token that goes with it; the result is its actor (backend/src/access.rs). A
-- handler (backend/src/handlers) asks the actor for a permission and for a step-up or an unlocked
-- module, and calls a service (backend/src/services). A service checks the request against the
-- committed database, opens a transaction, calls the repositories (backend/src/repositories), whose
-- functions are one SQL statement or a few, writes an audit record and commits. An error on the way
-- drops the transaction and becomes the response (backend/src/error.rs).
--
-- The files:
--   Prelude      tests, the clauses of SQL on lists of rows, Rust's Result, text; with their laws
--   Error        backend/src/error.rs
--   Access       backend/src/access.rs
--   External     what the backend takes from its crates, as a parameter
--   Db           the rows of backend/migrations and backend/src/models.rs, and the whole database
--   Action       a call with its transaction
--   Auth         backend/src/auth.rs: tokens, the client's address (ClientIp), the CSRF check and the
--                authentication of a request
--   Mfa          the secrets of backend/src/mfa.rs
--   Repo         backend/src/repositories, a module for each file (Sessions is auth_sessions.rs)
--   Service      backend/src/services: Users (users.rs), Roles (roles.rs), Departments, StepUp,
--                ModuleUnlock, Passwords (of auth.rs), Reauth (of auth.rs and mfa.rs), Auth and Login
--                (auth.rs) and Mfa (mfa.rs)
--   Handler      the handlers of backend/src/handlers that change users, roles and departments,
--                and of auth.rs those of the own account
--   Tests        concrete databases and the examples that run on them
--
-- A definition has the name of the function that it translates. A function of the source that
-- awaits a database is one on the record Db: a read takes it, a write gives the next one, a failing
-- statement is a value of Sql, and a call of a service is a value of Api with the database that it
-- commits. The committed database, which reads outside a transaction see, is called pool. Where a
-- service opens its transaction in the middle, the part inside is a definition of its own
-- (store_grant, delete_one).
--
-- Bounds: ids are natural numbers, and only the coding of an id in eight bytes needs them below
-- 2^63. Times are microseconds; the database's time and the server's clock are two arguments. The
-- recursive queries over departments run for one round more than there are departments, since a
-- path without a cycle is no longer than that.
--
-- Not modelled: failures of the connection, concurrent transactions and their row locks, the limit
-- on concurrent Argon2 runs, the attributes of the cookies that a response sets, the other
-- handlers, the lists for display with their filters and orders, telemetry, and the start-up of the
-- process. Random bytes and salts are arguments. SHA-256, Argon2, AES-GCM, TOTP, base64 and
-- WebAuthn are functions of the parameter External; what a theorem needs of them is a hypothesis:
-- IsAead for AES-GCM, Matches for the counters that two codes match. The networks of trusted
-- proxies, and the reading of an address from a text, are arguments of ClientIp. The JSON of a
-- challenge's state is the value that was written there.
pub mod Prelude
pub mod Error
pub mod Access
pub mod External
pub mod Db
pub mod Auth
pub mod Action
pub mod Mfa
pub mod Repo
pub mod Service
pub mod Handler
pub mod Tests
