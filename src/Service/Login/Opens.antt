-- ===== src/Service/Login/Opens.antt =====
-- A good login, `login` of backend/src/services/auth.rs, opens a session whose tokens authenticate
-- the requests that follow.
use arc_admin.Prelude.{
  nat_eq, string_eq, Bool, String, all, arith, char_count, exists, false, fetch-exists, fetch-true,
  is_none, leb, nat_beq_iff, none, ok, refl, some, trim, true, ℕ, ◌&&◌, ◌+◌, ◌<◌, ◌==◌, ◌≡◌, ◌≤◌,
}
use arc_admin.External.{External}
use arc_admin.Db.{Db, UserRow, SessionRow, seconds}
use arc_admin.Access.{ActorContext}
use arc_admin.Auth.Token.{random_token, token_hash}
use arc_admin.Auth.Http.{Request, header, cookie}
use arc_admin.Auth.Csrf.{full_length, csrf_cookie_name}
use arc_admin.Auth.Authenticate.{session_token, authenticate}
use arc_admin.Repo.Users
use arc_admin.Repo.Users.{is_active}
use arc_admin.Repo.Mfa
use arc_admin.Repo.Sessions.Context.{mfa_satisfied}
use arc_admin.Service.Auth.{
  AuthSessionConfig, LoginThrottleKeys, LoginSessionOutcome, throttle_keys,
}
use arc_admin.Service.Auth.LoginSession.{create_login_session, outcome, ttl, idle_timeout}
use arc_admin.Service.Auth.Opened.{
  precedes, left_db, IsFresh, store_session-fresh, create_login_session-authenticates,
}
use arc_admin.Service.Mfa.Begin.{begin_login, needs_factor}
use arc_admin.Service.Login.{
  LoginRequest, LoginBytes, login, signed_in, is_authenticated, accept_login,
}
use arc_admin.Service.Login.Sound.{IsAuthenticated}

-- an account that needs no factor is not one that must have TOTP
needs_factor-mfa :
    (db : Db) (user_id : ℕ)
    → needs_factor (Mfa.summary db user_id) ≡ false
    → mfa_satisfied db user_id ≡ true
unfolding needs_factor Mfa.summary mfa_satisfied
needs_factor-mfa db user_id h = ground arith

-- the account that a name finds is there with its own version, and active if its status is
find_by_username-owner :
    (db : Db) (username : String) (row : UserRow)
    → Users.find_by_username db username ≡ some row
    → (row.status == "active") ≡ true
    → exists
        (λ (u : UserRow). u.id == row.id && (row.token_version == u.token_version && is_active u))
        db.users
      ≡ true
unfolding Users.find_by_username is_active
find_by_username-owner db username row found active =
    let named = λ (u : UserRow). u.username == username && is_none u.deleted_at in
    let present = fetch-true named db.users found in
    fetch-exists named _ db.users found (
      ground (
        arith,
        present,
        active,
        nat_beq_iff row.id row.id,
        nat_beq_iff row.token_version row.token_version,
      ))

module _ (ext : External) (step now utc_now : ℕ) (config : AuthSessionConfig)
    (bytes : LoginBytes) where
  begin_login-free :
      (user : UserRow) (persistent : Bool) (keys : LoginThrottleKeys) (pool : Db)
      → needs_factor (Mfa.summary pool user.id) ≡ false
      → begin_login ext step now utc_now bytes.challenge user persistent keys pool ≡ (ok none, pool)
  unfolding begin_login
  begin_login-free user persistent keys pool free = rw free

  abbrev opened : LoginRequest → String → UserRow → Db → Db
  opened req client_ip row pool =
      left_db ext now utc_now config req.remember (throttle_keys ext (trim req.username) client_ip)
        bytes.tokens row pool

  login-opened :
      (req : LoginRequest) (client_ip : String) (pool : Db) (row : UserRow)
      → IsAuthenticated ext step now utc_now config bytes req client_ip pool row
      → char_count req.password ≤ 128
      → needs_factor (Mfa.summary pool row.id) ≡ false
      → IsFresh ext now utc_now config req.remember
          (throttle_keys ext (trim req.username) client_ip)
          bytes.tokens
          row
          pool
      → login ext step now utc_now config bytes req client_ip pool ≡ (
        ok (
            signed_in (
              outcome utc_now config req.remember bytes.tokens row
                (opened req client_ip row pool))),
        opened req client_ip row pool,
      )
  unfolding login is_authenticated accept_login create_login_session
  login-opened req client_ip pool row good short free fresh =
      let keys = throttle_keys ext (trim req.username) client_ip in
      let fits : leb (char_count req.password) 128 ≡ true = ground (arith, short) in
      let begun = begin_login-free row req.remember keys pool free in
      let stored =
        store_session-fresh ext now utc_now config req.remember keys bytes.tokens row pool fresh in
      rw (good.unlocked, good.found, good.active, good.password, fits, begun, stored)

  -- With the right password, on an active account without a second factor and without a lock, a login
  -- opens a session, and every request that presents its two tokens before the session expires or
  -- has been idle too long is authenticated as that account. No session of before
  -- has the hash of the new token, they have smaller ids and are not from the future, and a user may
  -- have at least one session.
  pub login-authenticates :
      (req : LoginRequest) (client_ip : String) (pool : Db) (row : UserRow) (secure : Bool)
      (later : ℕ) (request : Request)
      → IsAuthenticated ext step now utc_now config bytes req client_ip pool row
      → char_count req.password ≤ 128
      → needs_factor (Mfa.summary pool row.id) ≡ false
      → exists
          (λ (s : SessionRow).
            s.session_token_hash == token_hash ext (random_token bytes.tokens.session))
          pool.auth_sessions
        ≡ false
      → all (precedes now pool.next_session) pool.auth_sessions ≡ true
      → 1 ≤ config.max_sessions_per_user
      → now ≤ later
      → later < utc_now + seconds (ttl config req.remember)
      → later < now + seconds (idle_timeout config req.remember)
      → session_token secure request ≡ some (random_token bytes.tokens.session)
      → full_length (header request.headers "x-csrf-token") ≡ some (random_token bytes.tokens.csrf)
      → full_length (cookie request.cookies (csrf_cookie_name secure))
        ≡ some (random_token bytes.tokens.csrf)
      → (session : LoginSessionOutcome) × (left : Db) × (actor : ActorContext) × (login ext step now
            utc_now config bytes req client_ip pool
          ≡ (ok (signed_in session), left))
        × (session.session_token ≡ random_token bytes.tokens.session)
        × (session.csrf_token ≡ random_token bytes.tokens.csrf)
        × ((authenticate ext secure later request left).0 ≡ ok actor)
        × (actor.user_id ≡ row.id)
  unfolding create_login_session
  login-authenticates req client_ip pool row secure later request good short free fresh older
        some_allowed after unexpired awake presents sent kept =
      let keys = throttle_keys ext (trim req.username) client_ip in
      let owner = find_by_username-owner pool (trim req.username) row good.found good.active in
      let (actor, accepted, same) =
        create_login_session-authenticates ext now utc_now config req.remember keys bytes.tokens row
          pool secure later request owner (needs_factor-mfa pool row.id free) older some_allowed
          after unexpired awake presents sent kept in
      (
        _,
        _,
        actor,
        login-opened req client_ip pool row good short free fresh,
        refl,
        refl,
        accepted,
        same,
      )
