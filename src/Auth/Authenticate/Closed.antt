-- ===== src/Auth/Authenticate/Closed.antt =====
-- Whose requests `authenticate` (backend/src/auth.rs) refuses: without an open session nobody is
-- authenticated.
use arc_admin.Prelude.{
  nat_eq, string_eq, Bool, arith, exists, exists-none_weaken, false, fetch-exists, fetch-true,
  nat_beq_iff, ok, true, ℕ, ◌&&◌, ◌==◌, ◌≡◌, ◌≢◌,
}
use arc_admin.External.{External}
use arc_admin.Db.{Db, SessionRow}
use arc_admin.Access.{ActorContext}
use arc_admin.Auth.Http.{Request}
use arc_admin.Auth.Token.{token_hash}
use arc_admin.Auth.Authenticate.{authenticate}
use arc_admin.Auth.Authenticate.Sound.{authenticate-IsAccepted}
use arc_admin.Auth.Authenticate.Permitted.{admits-true}
use arc_admin.Repo.Sessions.{is_open}
use arc_admin.Repo.Sessions.Context.{admits, is_current}

-- the actor's session is in the table, of the actor's user and not revoked
authenticate-open :
    (ext : External) (secure : Bool) (now : ℕ) (req : Request) (pool : Db) {actor : ActorContext}
    → (authenticate ext secure now req pool).0 ≡ ok actor
    → exists
        (λ (s : SessionRow). s.id == actor.session_id && is_open actor.user_id s)
        pool.auth_sessions
      ≡ true
unfolding is_open is_current
authenticate-open ext secure now req pool {actor} h =
    let accepted = authenticate-IsAccepted ext secure now req pool h in
    let s = accepted.session in
    let hash = token_hash ext accepted.token in
    let (_, current, _, _) =
      admits-true now pool hash s
        (fetch-true (admits now pool hash) pool.auth_sessions accepted.found) in
    fetch-exists (admits now pool hash) _ pool.auth_sessions accepted.found (
      rw (accepted.same_session, accepted.same_user)
        (ground (arith, current, nat_beq_iff s.id s.id, nat_beq_iff s.user_id s.user_id)))

-- A user without an open session is authenticated by no request.
pub authenticate-closed :
    (ext : External) (secure : Bool) (now : ℕ) (req : Request) (pool : Db) (user_id : ℕ)
    {actor : ActorContext}
    → exists (is_open user_id) pool.auth_sessions ≡ false
    → (authenticate ext secure now req pool).0 ≡ ok actor
    → actor.user_id ≢ user_id
authenticate-closed ext secure now req pool user_id {actor} closed h e =
    let there = authenticate-open ext secure now req pool h in
    let nobody =
      exists-none_weaken (λ (s : SessionRow). s.id == actor.session_id && is_open actor.user_id s)
        (is_open user_id) pool.auth_sessions (λ s. rw e (ground arith)) closed in
    ground (arith, there, nobody)

-- A session that is revoked authenticates no request.
pub authenticate-revoked :
    (ext : External) (secure : Bool) (now : ℕ) (req : Request) (pool : Db) (session_id user_id : ℕ)
    {actor : ActorContext}
    → exists (λ (s : SessionRow). s.id == session_id && is_open user_id s) pool.auth_sessions
      ≡ false
    → (authenticate ext secure now req pool).0 ≡ ok actor
    → actor.user_id ≡ user_id
    → actor.session_id ≢ session_id
authenticate-revoked ext secure now req pool session_id user_id {actor} closed h e k =
    let there = authenticate-open ext secure now req pool h in
    ground (arith, closed, rw (e, k) at there)
