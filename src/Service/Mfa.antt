-- ===== src/Service/Mfa.antt =====
-- backend/src/services/mfa.rs: the second factor of a login and its factors. `now` is the time of the
-- database's transactions, `utc_now` that of the server's clock, and `step` the step of TOTP.
pub mod Codes
pub mod Settled
pub mod Begin
pub mod Totp
pub mod Enrollment
pub mod Recovery
pub mod PasskeyLogin
pub mod PasskeyFactors
use arc_admin.Prelude.{nat_eq, string_eq, String, [], err, if◌then◌else◌, ok, some, ℕ, ◌∷◌}
use arc_admin.External.{External}
use arc_admin.Error.{Api, ApiError, unauthorized, rate_limited, internal}
use arc_admin.Db.{
  Db, ChallengeRow, ChallengeState, LoginContext, UserRow, login_state, enrollment_state,
  passkey_authentication_state, passkey_registration_state, seconds, text, flag,
}
use arc_admin.Action.{Action, and_then}
use arc_admin.Repo.Mfa.Challenges
use arc_admin.Repo.AuditLogs.{record_log}
use arc_admin.Service.Auth.{AuthSessionConfig, LoginSessionOutcome}
use arc_admin.Service.Auth.LoginSession.{TokenBytes, create_login_session}

abbrev pub challenge_ttl_secs : ℕ
challenge_ttl_secs = 300

-- `serde_json::from_value` of a state: the JSON of another type lacks a field of this one.
abbrev pub read_login : ChallengeState → Api LoginContext
read_login (login_state login) = ok login
read_login _ = err (internal "missing field")

abbrev pub read_enrollment : ChallengeState → Api (LoginContext × String)
read_enrollment (enrollment_state login encrypted_secret) = ok (login, encrypted_secret)
read_enrollment _ = err (internal "missing field")

abbrev pub read_authentication : ChallengeState → Api (LoginContext × String)
read_authentication (passkey_authentication_state login authentication) = ok (login, authentication)
read_authentication _ = err (internal "missing field")

abbrev pub read_registration : ChallengeState → Api (String × String)
read_registration (passkey_registration_state name registration) = ok (name, registration)
read_registration _ = err (internal "missing field")

-- A transaction that commits and then returns, with an error too.
abbrev pub settle : {A : Type 0} → Action (Api A) → Action A
settle m = and_then m λ r db. (r, db)

-- A factor that did not pass: the attempt is counted and recorded, and the call answers so.
unfoldable pub refuse : {A : Type 0} → ℕ → Db → ChallengeRow → String → Api A × Db
refuse now db challenge factor =
    let failed = Challenges.record_challenge_failure now db challenge.id in
    (
      err (if failed.0 then rate_limited challenge_ttl_secs else unauthorized),
      record_log failed.1 (some challenge.user_id) "auth.mfa.verify.failure" "user"
          (some challenge.user_id) (("factor", text factor) ∷ ("locked", flag failed.0) ∷ []),
    )

-- What a challenge that was passed goes on with.
pub record Passed : Type 0 where
  pub challenge : ChallengeRow
  pub login : LoginContext
  pub user : UserRow

-- `create_login_session` for it.
abbrev pub finish_login :
    External → ℕ → ℕ → AuthSessionConfig → TokenBytes → Passed → Action LoginSessionOutcome
finish_login ext now utc_now config bytes passed =
    create_login_session ext now utc_now config passed.challenge.persistent passed.login bytes
      passed.user
