-- ===== src/Service/Login.antt =====
-- `login` of backend/src/services/auth.rs.
pub mod Sound
pub mod Opens
use arc_admin.Prelude.{
  nat_eq, string_eq, Bool, Option, String, char_count, err, if◌then◌else◌, is_some_and, leb, none,
  ok, some, trim, ℕ, ◌&&◌, ◌==◌,
}
use arc_admin.External.{External}
use arc_admin.Error.{Api, unauthorized, rate_limited}
use arc_admin.Db.{Db, UserRow}
use arc_admin.Action.{Action, and_then, check}
use arc_admin.Repo.Users
use arc_admin.Service.Auth.{
  AuthSessionConfig, LoginThrottleKeys, LoginResponse, LoginSessionOutcome, throttle_keys,
}
use arc_admin.Service.Auth.Throttle.{locked_until, record_failed_login, retry_after}
use arc_admin.Service.Auth.LoginSession.{TokenBytes, create_login_session}
use arc_admin.Service.Mfa.Begin.{ChallengeBytes, begin_login}

pub record LoginRequest : Type 0 where
  pub username : String
  pub password : String
  pub remember : Bool

pub data LoginOutcome : Type 0 where
  signed_in : LoginSessionOutcome → LoginOutcome
  factor_required : LoginResponse → LoginOutcome

abbrev pub dummy_password_hash : String
dummy_password_hash =
    "$argon2id$v=19$m=19456,t=2,p=1$pDDhKh46fVQNqRy3OeXTTw$+5qvGkvmKsilvsRWsskXT4k6fmmE4q35ntz6ME1UNBE"

-- An unparsable hash fits no password.
unfoldable pub verify_login_password : External → String → String → Bool
verify_login_password ext password encoded_hash =
    ext.is_password_hash encoded_hash && ext.argon2_verify password encoded_hash

abbrev stored_hash : Option UserRow → String
stored_hash none = dummy_password_hash
stored_hash (some user) = user.password_hash

-- The hash is computed for a name that is not there, too.
unfoldable pub is_authenticated : External → String → Option UserRow → Bool
unfolding verify_login_password
is_authenticated ext password row =
    let password_valid =
      leb (char_count password) 128 && verify_login_password ext password (stored_hash row) in
    is_some_and row (λ user. user.status == "active" && password_valid)

abbrev pub id_of : Option UserRow → Option ℕ
id_of none = none
id_of (some user) = some user.id

-- The answer to a failure: the lock that it caused, or none.
abbrev pub failure : ℕ → Option ℕ → Api LoginOutcome
failure utc_now none = err unauthorized
failure utc_now (some lock) = err (rate_limited (retry_after lock utc_now))

unfoldable pub refuse_login :
    ℕ → ℕ → AuthSessionConfig → LoginThrottleKeys → Option UserRow → Action LoginOutcome
unfolding record_failed_login retry_after
refuse_login now utc_now config keys row pool =
    let failed = record_failed_login now pool config keys (id_of row) in
    (failure utc_now failed.0, failed.1)

-- The random bytes of a session's tokens and of a challenge.
pub record LoginBytes : Type 0 where
  pub tokens : TokenBytes
  pub challenge : ChallengeBytes

abbrev pub or_session :
    External
    → ℕ
    → ℕ
    → AuthSessionConfig
    → LoginBytes
    → Bool
    → LoginThrottleKeys
    → UserRow
    → Option LoginResponse
    → Action LoginOutcome
or_session ext now utc_now config bytes persistent keys row (some response) db =
    (ok (factor_required response), db)
or_session ext now utc_now config bytes persistent keys row none db =
    and_then (create_login_session ext now utc_now config persistent keys bytes.tokens row)
      (λ opened. check (λ _. ok (signed_in opened))) db

unfoldable pub accept_login :
    External
    → ℕ
    → ℕ
    → ℕ
    → AuthSessionConfig
    → LoginBytes
    → Bool
    → LoginThrottleKeys
    → UserRow
    → Action LoginOutcome
unfolding begin_login create_login_session
accept_login ext step now utc_now config bytes persistent keys row =
    and_then (begin_login ext step now utc_now bytes.challenge row persistent keys)
      (or_session ext now utc_now config bytes persistent keys row)

-- The row is there where the login is authenticated.
abbrev pub answered :
    External
    → ℕ
    → ℕ
    → ℕ
    → AuthSessionConfig
    → LoginBytes
    → LoginRequest
    → LoginThrottleKeys
    → Option UserRow
    → Action LoginOutcome
answered ext step now utc_now config bytes req keys none pool =
    refuse_login now utc_now config keys none pool
answered ext step now utc_now config bytes req keys (some row) pool =
    if is_authenticated ext req.password (some row)
    then accept_login ext step now utc_now config bytes req.remember keys row pool
    else refuse_login now utc_now config keys (some row) pool

abbrev pub unless_locked : ℕ → Option ℕ → Action LoginOutcome → Action LoginOutcome
unless_locked utc_now none rest pool = rest pool
unless_locked utc_now (some lock) rest pool = (err (rate_limited (retry_after lock utc_now)), pool)

unfoldable pub login :
    External
    → ℕ
    → ℕ
    → ℕ
    → AuthSessionConfig
    → LoginBytes
    → LoginRequest
    → String
    → Action LoginOutcome
unfolding throttle_keys locked_until is_authenticated refuse_login accept_login retry_after
login ext step now utc_now config bytes req client_ip pool =
    let username = trim req.username in
    let keys = throttle_keys ext username client_ip in
    unless_locked utc_now (locked_until now pool keys)
      (answered ext step now utc_now config bytes req keys (Users.find_by_username pool username))
      pool
