-- ===== src/Service/Auth/Opened.antt =====
-- The session that `create_login_session` of backend/src/services/auth.rs opens authenticates the
-- requests that present its tokens.
use arc_admin.Prelude.{
  nat_eq, string_eq, Bool, Bool-cases, List, Option, String, [], all, ap, arith, count_where,
  delete_where, exists, exists-same, exists-update, false, fetch-first, fetch_optional, inl, inr,
  leb, ltb, none, not, ok, ok_injective, refl, some, sym, true, update_where, updated, ℕ, ◌&&◌, ◌+◌,
  ◌<◌, ◌==◌, ◌∙◌, ◌∷◌, ◌≡◌, ◌≤◌,
}
use arc_admin.External.{External}
use arc_admin.Db.{Db, UserRow, SessionRow, seconds}
use arc_admin.Access.{ActorContext}
use arc_admin.Auth.Http.{Request, header, cookie}
use arc_admin.Auth.Csrf.{full_length, csrf_cookie_name}
use arc_admin.Auth.Token.{random_token, token_hash}
use arc_admin.Auth.Authenticate.{session_token, authenticate}
use arc_admin.Auth.Authenticate.Complete.{authenticate_complete}
use arc_admin.Repo.Users
use arc_admin.Repo.Users.{is_active}
use arc_admin.Repo.Sessions
use arc_admin.Repo.Sessions.{is_open, is_newer, is_within_limit}
use arc_admin.Repo.Sessions.Context.{admits, is_current, is_owner, mfa_satisfied}
use arc_admin.Repo.Mfa
use arc_admin.Repo.AuditLogs.{record_log}
use arc_admin.Service.Passwords.{record_session_revocation}
use arc_admin.Service.Auth.{AuthSessionConfig, LoginThrottleKeys}
use arc_admin.Service.Auth.LoginSession.{
  TokenBytes, prepared, recorded, login_session, store_session, ttl, idle_timeout,
}

-- A record of a revocation changes the log only.
pub record_session_revocation-logs :
    (db : Db) (actor : Option ℕ) (user_id : ℕ) (reason : String) (count : ℕ)
    → record_session_revocation db actor user_id reason count ≡ record db {
      audit_logs = (record_session_revocation db actor user_id reason count).audit_logs;
    }
unfolding record_session_revocation record_log
record_session_revocation-logs db actor user_id reason count = elim (Bool-cases (count == 0)) [
  | inl zero_count ↦ rw zero_count refl
  | inr some_count ↦ rw some_count refl
]

-- No session is newer than one that is created at `now` with the next id.
abbrev pub precedes : ℕ → ℕ → SessionRow → Bool
precedes now next s = ltb s.id next && leb s.created_at now

none_newer :
    (user_id : ℕ) (new : SessionRow) (sessions : List SessionRow)
    → all (precedes new.created_at new.id) sessions ≡ true
    → count_where (λ o. is_open user_id o && is_newer o new) sessions ≡ 0
unfolding all count_where is_newer
none_newer user_id new [] h = refl
none_newer user_id new (s ∷ sessions) h = ground (arith, none_newer user_id new sessions)

first_within :
    (new : SessionRow) (sessions : List SessionRow) (user_id max_sessions : ℕ)
    → all (precedes new.created_at new.id) sessions ≡ true
    → 1 ≤ max_sessions
    → is_within_limit (new ∷ sessions) user_id max_sessions new ≡ true
unfolding is_within_limit count_where is_newer
first_within new sessions user_id max_sessions h some_allowed =
    ground (arith, none_newer user_id new sessions h)

prune-first :
    (now : ℕ) (db : Db) (s : SessionRow) (rest : List SessionRow)
    → s.revoked_at ≡ none
    → now ≤ s.expires_at + seconds 604800
    → (Sessions.prune now (record db { auth_sessions = s ∷ rest })).auth_sessions
      ≡ s ∷ (Sessions.prune now (record db { auth_sessions = rest })).auth_sessions
unfolding Sessions.prune delete_where
prune-first now db s rest open_row in_time = ground (arith, open_row, in_time)

over_limit : List SessionRow → ℕ → ℕ → SessionRow → Bool
over_limit sessions user_id max_sessions s =
    is_open user_id s && not (is_within_limit sessions user_id max_sessions s)

enforce_user_limit-first :
    (now user_id max_sessions : ℕ) (db : Db) (s : SessionRow) (rest : List SessionRow)
    → is_within_limit (s ∷ rest) user_id max_sessions s ≡ true
    → (Sessions.enforce_user_limit now
        (record db { auth_sessions = s ∷ rest })
        user_id
        max_sessions).1.auth_sessions
      ≡ s ∷ update_where (over_limit (s ∷ rest) user_id max_sessions) (Sessions.revoked now) rest
unfolding Sessions.enforce_user_limit update_where over_limit
enforce_user_limit-first now user_id max_sessions db s rest within =
    elim (Bool-cases (is_open user_id s)) [ inl o ↦ rw (o, within) | inr c ↦ rw c ]

module _ (ext : External) (now utc_now : ℕ) (config : AuthSessionConfig) (persistent : Bool)
    (keys : LoginThrottleKeys) (bytes : TokenBytes) (row : UserRow) (pool : Db) where
  abbrev pub opened_row : SessionRow
  opened_row = record {
    id = pool.next_session;
    user_id = row.id;
    session_token_hash = token_hash ext (random_token bytes.session);
    csrf_token_hash = token_hash ext (random_token bytes.csrf);
    token_version = row.token_version;
    idle_timeout_secs = idle_timeout config persistent;
    persistent = persistent;
    created_at = now;
    last_seen_at = now;
    expires_at = utc_now + seconds (ttl config persistent);
    revoked_at = none;
  }

  abbrev pub stored_row : Db
  stored_row =
      Sessions.inserted now (prepared now keys row pool)
        (login_session ext utc_now config persistent bytes row)

  -- the database of a transaction that succeeds
  abbrev pub left_db : Db
  left_db = recorded now utc_now config persistent keys row (pool.next_session, stored_row)

  -- no session has the hash of the new token
  abbrev pub IsFresh : Type 0
  IsFresh =
      exists
        (λ (s : SessionRow). s.session_token_hash == token_hash ext (random_token bytes.session))
        pool.auth_sessions
      ≡ false

  pub store_session-fresh :
      IsFresh
      → store_session ext now utc_now config persistent keys bytes row pool ≡ ok (tt, left_db)
  unfolding store_session Sessions.create prepared Sessions.clear_login_failures
      Users.update_last_login
  store_session-fresh fresh = rw fresh

  pub store_session-done :
      {left : Db}
      → store_session ext now utc_now config persistent keys bytes row pool ≡ ok (tt, left)
      → IsFresh × (left ≡ left_db)
  unfolding store_session Sessions.create prepared Sessions.clear_login_failures
      Users.update_last_login
  store_session-done h =
      let taken =
        exists
          (λ (s : SessionRow). s.session_token_hash == token_hash ext (random_token bytes.session))
          pool.auth_sessions in
      elim (Bool-cases taken) [
        | inl twice ↦ absurd (ground (arith, rw twice at h))
        | inr fresh ↦
            (fresh, ap (λ (r : (Unit {0}) × Db). r.1) (sym (ok_injective (rw fresh at h))))
      ]

  -- what the transaction leaves of the tables that an authentication reads
  store_session-accounts :
      (left_db.users
        ≡ update_where
            (λ (u : UserRow). u.id == row.id)
            (λ u. record u { last_login_at = some now })
            pool.users)
      × (left_db.user_roles ≡ pool.user_roles)
      × (left_db.roles ≡ pool.roles)
      × (left_db.mfa_settings ≡ pool.mfa_settings)
  unfolding recorded prepared Sessions.inserted Sessions.enforce_user_limit Sessions.prune
      record_log Sessions.clear_login_failures Users.update_last_login
  store_session-accounts =
      let limited =
        Sessions.enforce_user_limit now stored_row row.id config.max_sessions_per_user in
      let logs =
        record_session_revocation-logs limited.1 (some row.id) row.id "session_limit" limited.0 in
      (
        ap (λ (d : Db). d.users) logs,
        ap (λ (d : Db). d.user_roles) logs,
        ap (λ (d : Db). d.roles) logs,
        ap (λ (d : Db). d.mfa_settings) logs,
      )

  pub store_session-first :
      is_within_limit
          (opened_row ∷ pool.auth_sessions)
          row.id
          config.max_sessions_per_user
          opened_row
        ≡ true
      → now ≤ opened_row.expires_at + seconds 604800
      → (rest : List SessionRow) × (left_db.auth_sessions ≡ opened_row ∷ rest)
  unfolding recorded prepared Sessions.inserted Sessions.enforce_user_limit Sessions.prune
      record_log Sessions.clear_login_failures Users.update_last_login
  store_session-first within in_time =
      let limited =
        Sessions.enforce_user_limit now stored_row row.id config.max_sessions_per_user in
      let logs =
        record_session_revocation-logs limited.1 (some row.id) row.id "session_limit" limited.0 in
      let over = over_limit (opened_row ∷ pool.auth_sessions) row.id config.max_sessions_per_user in
      let others = update_where over (Sessions.revoked now) pool.auth_sessions in
      let kept =
        enforce_user_limit-first now row.id config.max_sessions_per_user stored_row opened_row
          pool.auth_sessions within in
      (
        (Sessions.prune now (record limited.1 { auth_sessions = others })).auth_sessions,
        ap (λ (d : Db). (Sessions.prune now d).auth_sessions) logs
            ∙ ap
                (λ (l : List SessionRow).
                  (Sessions.prune now (record limited.1 { auth_sessions = l })).auth_sessions)
                kept
            ∙ prune-first now limited.1 opened_row others refl in_time,
      )

  -- whether the user has the factor that is required does not change
  store_session-mfa : mfa_satisfied left_db row.id ≡ mfa_satisfied pool row.id
  unfolding mfa_satisfied Mfa.required
  store_session-mfa =
      let (_, grants, roles, settings) = store_session-accounts in rw (grants, roles, settings)

  store_session-owner :
      exists
          (λ (u : UserRow). u.id == row.id && (row.token_version == u.token_version && is_active u))
          pool.users
        ≡ true
      → exists (is_owner opened_row) left_db.users ≡ true
  unfolding is_owner is_active
  store_session-owner h =
      let (users, _, _, _) = store_session-accounts in
      let seen = λ (u : UserRow). record u { last_login_at = some now } in
      let same =
        exists-same (λ u. is_owner opened_row (updated (λ u. u.id == row.id) seen u))
          (is_owner opened_row) pool.users (λ u. ground arith) in
      rw (users, exists-update (is_owner opened_row) (λ u. u.id == row.id) seen pool.users, same) h

  -- The new session admits its token until it expires or is idle for too long.
  store_session-admits :
      (later : ℕ)
      → exists
          (λ (u : UserRow). u.id == row.id && (row.token_version == u.token_version && is_active u))
          pool.users
        ≡ true
      → mfa_satisfied pool row.id ≡ true
      → later < utc_now + seconds (ttl config persistent)
      → later < now + seconds (idle_timeout config persistent)
      → admits later left_db (token_hash ext (random_token bytes.session)) opened_row ≡ true
  unfolding admits is_current
  store_session-admits later owner mfa unexpired awake =
      let hash = token_hash ext (random_token bytes.session) in
      let itself = (string_eq.decides hash hash).1 refl in
      ground (arith, itself, unexpired, awake, store_session-owner owner, store_session-mfa, mfa)

  -- The session that the transaction opens is the one that its tokens authenticate.
  pub create_login_session-authenticates :
      (secure : Bool) (later : ℕ) (req : Request)
      → exists
          (λ (u : UserRow). u.id == row.id && (row.token_version == u.token_version && is_active u))
          pool.users
        ≡ true
      → mfa_satisfied pool row.id ≡ true
      → all (precedes now pool.next_session) pool.auth_sessions ≡ true
      → 1 ≤ config.max_sessions_per_user
      → now ≤ later
      → later < utc_now + seconds (ttl config persistent)
      → later < now + seconds (idle_timeout config persistent)
      → session_token secure req ≡ some (random_token bytes.session)
      → full_length (header req.headers "x-csrf-token") ≡ some (random_token bytes.csrf)
      → full_length (cookie req.cookies (csrf_cookie_name secure)) ≡ some (random_token bytes.csrf)
      → (actor : ActorContext) × ((authenticate ext secure later req left_db).0 ≡ ok actor)
        × (actor.user_id ≡ row.id)
  create_login_session-authenticates secure later req owner mfa older some_allowed after unexpired
        awake presents sent kept =
      let hash = token_hash ext (random_token bytes.session) in
      let within =
        first_within opened_row pool.auth_sessions row.id config.max_sessions_per_user older
          some_allowed in
      let (rest, first) = store_session-first within (omega (arith, after, unexpired)) in
      let admitted = store_session-admits later owner mfa unexpired awake in
      let found =
        ap (fetch_optional (admits later left_db hash)) first
        ∙ fetch-first (admits later left_db hash) opened_row rest admitted in
      authenticate_complete ext secure later req left_db (random_token bytes.session)
        (random_token bytes.csrf) opened_row presents sent kept found refl
