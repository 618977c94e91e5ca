-- ===== src/Service/Auth/SignedOut.antt =====
-- After `change_password` and `logout` of backend/src/services/auth.rs no earlier session
-- authenticates a request (`authenticate` of backend/src/auth.rs).
use arc_admin.Prelude.{
  nat_eq, string_eq, Bool, List, String, ap, exists, false, if◌then◌else◌, ok, ok_injective,
  ok_or-eq-ok, some, sym, ℕ, ◌&&◌, ◌==◌, ◌≡◌, ◌≢◌,
}
use arc_admin.External.{External}
use arc_admin.Db.{Db, SessionRow}
use arc_admin.Access.{ActorContext}
use arc_admin.Action.{check, transaction, and_then-done, transaction-done}
use arc_admin.Auth.Http.{Request}
use arc_admin.Auth.Authenticate.{authenticate}
use arc_admin.Auth.Authenticate.Closed.{authenticate-closed, authenticate-revoked}
use arc_admin.Repo.Users
use arc_admin.Repo.Sessions
use arc_admin.Repo.Sessions.{is_open}
use arc_admin.Repo.Sessions.Revocation.{
  record_session_revocation-sessions, revoke_all_for_user-closed, revoke-closed,
}
use arc_admin.Repo.AuditLogs.{record_log}
use arc_admin.Service.Auth.Account.{
  change_password, prepare_password, store_password, ChangePasswordRequest, logout,
}

store_password-closed :
    (now user_id : ℕ) (password_hash : String) (pool : Db) {left : Db}
    → store_password now user_id password_hash pool ≡ ok (tt, left)
    → exists (is_open user_id) left.auth_sessions ≡ false
unfolding store_password record_log
store_password-closed now user_id password_hash pool h =
    let changed = Users.update_password pool user_id password_hash in
    let (row, there, done) = ok_or-eq-ok changed.0 _ _ h in
    let revoked = Sessions.revoke_all_for_user now changed.1 user_id in
    let kept =
      record_session_revocation-sessions revoked.1 (some user_id) user_id "password_change"
        revoked.0 in
    rw (sym (ap (λ (r : (Unit {0}) × Db). r.1.auth_sessions) (ok_injective done)), kept)
      (revoke_all_for_user-closed now changed.1 user_id)

-- After a change of the password that succeeded, no request is authenticated as the user by any
-- session of before.
pub change_password-signed_out :
    (ext : External) (now : ℕ) (salt : List ℕ) (user_id : ℕ) (req : ChangePasswordRequest)
    (pool : Db) {left : Db} (secure : Bool) (later : ℕ) (request : Request) {actor : ActorContext}
    → change_password ext now salt user_id req pool ≡ (ok tt, left)
    → (authenticate ext secure later request left).0 ≡ ok actor
    → actor.user_id ≢ user_id
unfolding change_password
change_password-signed_out ext now salt user_id req pool secure later request h =
    let (password_hash, mid, first, rest) =
      and_then-done (check (prepare_password ext salt user_id req))
        (λ password_hash. transaction (store_password now user_id password_hash)) pool h in
    authenticate-closed ext secure later request _ user_id (
      store_password-closed now user_id password_hash mid
        (transaction-done (store_password now user_id password_hash) mid rest))

logout-closed :
    (now user_id session_id : ℕ) (pool : Db)
    → exists
        (λ (s : SessionRow). s.id == session_id && is_open user_id s)
        (logout now user_id session_id pool).auth_sessions
      ≡ false
unfolding logout record_log
logout-closed now user_id session_id pool =
    let revoked = Sessions.revoke now pool session_id user_id in
    let kept =
      record_session_revocation-sessions revoked.1 (some user_id) user_id "logout"
        (if revoked.0 then 1 else 0) in
    rw kept (revoke-closed now pool user_id session_id)

-- After a logout no request is authenticated as the user in that session, at any time.
pub logout-signed_out :
    (ext : External) (now user_id session_id : ℕ) (pool : Db) (secure : Bool) (later : ℕ)
    (request : Request) {actor : ActorContext}
    → (authenticate ext secure later request (logout now user_id session_id pool)).0 ≡ ok actor
    → actor.user_id ≡ user_id
    → actor.session_id ≢ session_id
logout-signed_out ext now user_id session_id pool secure later request h e =
    authenticate-revoked ext secure later request _ session_id user_id
      (logout-closed now user_id session_id pool) h e
