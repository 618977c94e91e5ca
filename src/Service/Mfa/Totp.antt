-- ===== src/Service/Mfa/Totp.antt =====
-- `verify_totp_login` of backend/src/services/mfa.rs.
pub mod Once
use arc_admin.Prelude.{
  nat_eq, string_eq, Bool, List, String, [], if◌then◌else◌, is_some, map_err, ok, ok_or, some, trim,
  ℕ, ◌>>=◌, ◌>>◌, ◌∷◌,
}
use arc_admin.External.{External}
use arc_admin.Error.{Api, unauthorized, internal}
use arc_admin.Db.{Db, ChallengeRow, LoginContext, UserRow, text}
use arc_admin.Action.{Action, and_then, transaction}
use arc_admin.Mfa.{decrypt_totp_secret}
use arc_admin.Auth.Token.{token_hash}
use arc_admin.Repo.Users
use arc_admin.Repo.Mfa
use arc_admin.Repo.Mfa.Challenges
use arc_admin.Repo.AuditLogs.{record_log}
use arc_admin.Service.Auth.{AuthSessionConfig, LoginSessionOutcome}
use arc_admin.Service.Auth.LoginSession.{TokenBytes}
use arc_admin.Service.Mfa.{read_login, settle, refuse, Passed, finish_login}

-- `check_current(code.trim()).is_some()`
unfoldable pub is_valid_code : External → ℕ → ℕ → String → List ℕ → String → Api Bool
is_valid_code ext step now username secret code = do
  counter ← map_err internal (ext.totp_check step secret username (trim code) now)
  ok (is_some counter)

unfoldable pub pass_totp : ℕ → Db → Passed → Api Passed × Db
pass_totp now db passed = (
  ok passed,
  record_log (Challenges.consume_challenge now db passed.challenge.id)
      (some passed.challenge.user_id) "auth.mfa.verify.success" "user"
      (some passed.challenge.user_id) (("factor", text "totp") ∷ []),
)

-- The transaction of `verify_totp_login`, which commits whether the code passed or not.
unfoldable pub check_totp : External → ℕ → ℕ → String → String → Db → Api (Api Passed × Db)
unfolding is_valid_code pass_totp refuse
check_totp ext step now challenge_hash code db = do
  challenge ← ok_or (Challenges.challenge_for_update now db challenge_hash "login") unauthorized
  login ← read_login challenge.state
  encrypted ← ok_or (Mfa.totp_secret db challenge.user_id) unauthorized
  secret ← map_err internal (decrypt_totp_secret ext challenge.user_id encrypted)
  user ← ok_or (Users.find_by_id db challenge.user_id) unauthorized
  valid ← is_valid_code ext step now user.username secret code
  ok (
      if valid
      then pass_totp now db (record { challenge = challenge; login = login; user = user })
      else refuse now db challenge "totp")

unfoldable pub verify_totp_login :
    External
    → ℕ
    → ℕ
    → ℕ
    → AuthSessionConfig
    → TokenBytes
    → String
    → String
    → Action LoginSessionOutcome
unfolding check_totp token_hash
verify_totp_login ext step now utc_now config bytes challenge_token code =
    and_then (settle (transaction (check_totp ext step now (token_hash ext challenge_token) code)))
      (finish_login ext now utc_now config bytes)
