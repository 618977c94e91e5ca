-- ===== src/Tests/Logins.antt =====
-- Examples of logins.
use arc_admin.Prelude.{
  nat_eq, string_eq, [], all, arith, byte_len, char_count, count_where, exists, false,
  fetch_optional, ok, refl, some, trim, true, ◌==◌, ◌∷◌, ◌≡◌,
}
use arc_admin.Db.{Db, UserRow, SessionRow}
use arc_admin.Access.{ActorContext}
use arc_admin.Auth.Http.{Request, Method}
use arc_admin.Auth.Token.{hex, random_token, token_hash}
use arc_admin.Auth.Authenticate.{authenticate}
use arc_admin.Service.Auth.{AuthSessionConfig, LoginSessionOutcome}
use arc_admin.Service.Auth.LoginSession.{create_login_session, outcome}
use arc_admin.Service.Auth.Opened.{precedes}
use arc_admin.Service.Mfa.Begin.{needs_factor}
use arc_admin.Repo.Mfa
use arc_admin.Service.Auth.{throttle_keys}
use arc_admin.Service.Login.{LoginRequest, LoginOutcome, LoginBytes, login, signed_in}
use arc_admin.Service.Login.Sound.{IsAuthenticated, login-signed_in}
use arc_admin.Service.Login.Opens.{login-authenticates}
use arc_admin.Tests.Externals.{toy}
use arc_admin.Tests.Accounts.{accounts, account}
use arc_admin.Tests.Coding.{sample_bytes}

abbrev pub config : AuthSessionConfig
config = record {
  session_ttl_secs = 28800;
  session_idle_timeout_secs = 1800;
  persistent_session_ttl_secs = 2592000;
  persistent_session_idle_timeout_secs = 604800;
  max_sessions_per_user = 5;
  login_max_failures = 5;
  login_ip_max_failures = 30;
  login_account_ip_max_failures = 5;
  login_failure_window_secs = 900;
  login_lockout_secs = 900;
  secure_cookies = false;
}

abbrev bytes : LoginBytes
bytes = record {
  tokens = record { session = sample_bytes; csrf = sample_bytes };
  challenge = record { token = sample_bytes; secret = []; nonce = []; uuid = "6f1e" };
}

abbrev asked : LoginRequest
asked = record { username = " editor "; password = "correct horse"; remember = false }

abbrev editor : UserRow
editor = account 2 "editor"

is_editor : IsAuthenticated toy 30 0 0 config bytes asked "10.0.0.9" accounts editor
unfolding arc_admin.Repo.Users.find_by_username fetch_optional trim
    arc_admin.Service.Auth.Throttle.locked_until arc_admin.Repo.Sessions.locked_until
    arc_admin.Service.Login.verify_login_password
is_editor = record { found = refl; unlocked = refl; active = refl; password = refl }

free : needs_factor (Mfa.summary accounts 2) ≡ false
unfolding needs_factor Mfa.summary exists fetch_optional count_where
free = refl

unused_hash :
    exists
      (λ (s : SessionRow). s.session_token_hash == token_hash toy (random_token sample_bytes))
      accounts.auth_sessions
    ≡ false
unfolding exists hex token_hash byte_len random_token
unused_hash = refl

older : all (precedes 0 2) accounts.auth_sessions ≡ true
unfolding all
older = refl

abbrev after_login : Db
after_login =
    (create_login_session toy 0 0 config false (throttle_keys toy "editor" "10.0.0.9") bytes.tokens
      editor accounts).1

abbrev answer : LoginSessionOutcome
answer = outcome 0 config false bytes.tokens editor after_login

login_answer :
    login toy 30 0 0 config bytes asked "10.0.0.9" accounts ≡ (ok (signed_in answer), after_login)
unfolding login arc_admin.Repo.Sessions.locked_until fetch_optional
    arc_admin.Repo.Users.find_by_username trim char_count Mfa.summary exists count_where
    arc_admin.Repo.Sessions.create arc_admin.Repo.Sessions.clear_login_failures
    arc_admin.Repo.Users.update_last_login hex byte_len
login_answer = refl

login-signed_in_example :
    (row : UserRow) × IsAuthenticated toy 30 0 0 config bytes asked "10.0.0.9" accounts row
    × (needs_factor (Mfa.summary accounts row.id) ≡ false)
    × (create_login_session toy 0 0 config false
          (throttle_keys toy (trim " editor ") "10.0.0.9")
          bytes.tokens
          row
          accounts
        ≡ (ok answer, after_login))
login-signed_in_example =
    login-signed_in toy 30 0 0 config bytes asked "10.0.0.9" accounts login_answer

abbrev request : Request
request = record {
  method = Method.post;
  headers = ("x-csrf-token", some (random_token sample_bytes)) ∷ [];
  cookies =
      ("arc_session", random_token sample_bytes) ∷ ("arc_csrf", random_token sample_bytes) ∷ [];
}

login-authenticates_example :
    (session : LoginSessionOutcome) × (left : Db) × (actor : ActorContext) × (login toy 30 0 0
        config bytes asked "10.0.0.9" accounts
      ≡ (ok (signed_in session), left))
    × (session.session_token ≡ random_token sample_bytes)
    × (session.csrf_token ≡ random_token sample_bytes)
    × ((authenticate toy false 60000000 request left).0 ≡ ok actor)
    × (actor.user_id ≡ 2)
unfolding char_count arc_admin.Auth.Authenticate.session_token byte_len random_token hex
    arc_admin.Auth.Http.header
login-authenticates_example =
    login-authenticates toy 30 0 0 config bytes asked "10.0.0.9" accounts editor false 60000000
      request is_editor (omega arith) free unused_hash older (omega arith) (omega arith)
      (omega arith) (omega arith) refl refl refl
