-- ===== src/Auth.antt =====
-- backend/src/auth.rs: tokens, the client's address, the session cookies, the CSRF check and the
-- authentication of a request.
pub mod Token
pub mod Http
pub mod ClientIp
pub mod Csrf
pub mod Authenticate
