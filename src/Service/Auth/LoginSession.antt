-- ===== src/Service/Auth/LoginSession.antt =====
-- `create_login_session` of backend/src/services/auth.rs: the session that a complete login opens.
-- `now` is the time of the transaction and `utc_now` that of the server's clock.
use arc_admin.Prelude.{
  nat_eq, string_eq, Bool, List, [], first_chars, if◌then◌else◌, none, ok, some, ℕ, ◌+◌, ◌>>=◌, ◌∷◌,
}
use arc_admin.External.{External}
use arc_admin.Error.{Api, from_db}
use arc_admin.Action.{Action, and_then, check, transaction}
use arc_admin.Db.{Db, UserRow, seconds, text, number, flag}
use arc_admin.Auth.Token.{random_token, token_hash}
use arc_admin.Repo.Users
use arc_admin.Repo.Sessions
use arc_admin.Repo.Sessions.{NewSession}
use arc_admin.Repo.AuditLogs.{record_log}
use arc_admin.Service.Passwords.{record_session_revocation}
use arc_admin.Service.Auth.{
  AuthSessionConfig, LoginThrottleKeys, LoginSessionOutcome, user_response, authenticated,
}

-- The random bytes of the two tokens.
pub record TokenBytes : Type 0 where
  pub session : List ℕ
  pub csrf : List ℕ

abbrev pub ttl : AuthSessionConfig → Bool → ℕ
ttl config persistent =
    if persistent then config.persistent_session_ttl_secs else config.session_ttl_secs

abbrev pub idle_timeout : AuthSessionConfig → Bool → ℕ
idle_timeout config persistent =
    if persistent
    then config.persistent_session_idle_timeout_secs
    else config.session_idle_timeout_secs

abbrev pub login_session :
    External → ℕ → AuthSessionConfig → Bool → TokenBytes → UserRow → NewSession
login_session ext utc_now config persistent bytes row = record {
  user_id = row.id;
  session_token_hash = token_hash ext (random_token bytes.session);
  csrf_token_hash = token_hash ext (random_token bytes.csrf);
  token_version = row.token_version;
  idle_timeout_secs = idle_timeout config persistent;
  persistent = persistent;
  expires_at = utc_now + seconds (ttl config persistent);
}

-- What the transaction writes before it stores the session.
unfoldable pub prepared : ℕ → LoginThrottleKeys → UserRow → Db → Db
prepared now keys row pool =
    let seen = Users.update_last_login now pool row.id in
    Sessions.clear_login_failures (Sessions.clear_login_failures seen keys.account) keys.account_ip

-- What it writes afterwards, for the stored session's id.
unfoldable pub recorded :
    ℕ → ℕ → AuthSessionConfig → Bool → LoginThrottleKeys → UserRow → ℕ × Db → Db
recorded now utc_now config persistent keys row opened =
    let limited = Sessions.enforce_user_limit now opened.1 row.id config.max_sessions_per_user in
    let logged =
      record_session_revocation limited.1 (some row.id) row.id "session_limit" limited.0 in
    record_log (Sessions.prune now logged) (some row.id) "auth.login.success" "auth_session"
      (some opened.0)
      (("persistent", flag persistent)
        ∷ ("expiresAt", number (utc_now + seconds (ttl config persistent)))
        ∷ ("revokedBySessionLimit", number limited.0)
        ∷ ("sourceIpFingerprint", text (first_chars 12 keys.source_ip))
        ∷ [])

-- The transaction: it fails where another session has the token's hash.
unfoldable pub store_session :
    External
    → ℕ
    → ℕ
    → AuthSessionConfig
    → Bool
    → LoginThrottleKeys
    → TokenBytes
    → UserRow
    → Db
    → Api ((Unit {0}) × Db)
unfolding token_hash random_token prepared recorded
store_session ext now utc_now config persistent keys bytes row pool = do
  opened ← from_db (
      Sessions.create now (prepared now keys row pool)
        (login_session ext utc_now config persistent bytes row))
  ok (tt, recorded now utc_now config persistent keys row opened)

abbrev pub outcome : ℕ → AuthSessionConfig → Bool → TokenBytes → UserRow → Db → LoginSessionOutcome
outcome utc_now config persistent bytes row db = record {
  response = record {
    status = authenticated;
    expires_at = some (utc_now + seconds (ttl config persistent));
    user = some (user_response row (Users.role_names_by_user db row.id));
    challenge_token = none;
    methods = [];
    totp_secret = none;
    totp_uri = none;
    totp_qr_code = none;
    recovery_codes = [];
  };
  session_token = random_token bytes.session;
  csrf_token = random_token bytes.csrf;
  persistent = persistent;
  ttl_secs = ttl config persistent;
}

-- The roles of the answer are read after the commit.
unfoldable pub create_login_session :
    External
    → ℕ
    → ℕ
    → AuthSessionConfig
    → Bool
    → LoginThrottleKeys
    → TokenBytes
    → UserRow
    → Action LoginSessionOutcome
unfolding store_session random_token user_response
create_login_session ext now utc_now config persistent keys bytes row =
    and_then (transaction (store_session ext now utc_now config persistent keys bytes row))
      λ _. check (λ db. ok (outcome utc_now config persistent bytes row db))
