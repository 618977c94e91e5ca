-- ===== src/Service/Mfa/Recovery.antt =====
-- `verify_recovery_login`, `verify_password_and_totp` and `regenerate_recovery_codes` of
-- backend/src/services/mfa.rs.
pub mod Spent
use arc_admin.Prelude.{
  nat_eq, string_eq, Bool, List, Option, String, [], false, if◌then◌else◌, length, none, ok, ok_or,
  some, ℕ, ◌>>=◌, ◌>>◌, ◌∷◌,
}
use arc_admin.External.{External}
use arc_admin.Error.{Api, unauthorized}
use arc_admin.Db.{Db, ChallengeRow, LoginContext, number}
use arc_admin.Action.{Action, and_then, check, transaction}
use arc_admin.Auth.Token.{token_hash}
use arc_admin.Repo.Users
use arc_admin.Repo.Sessions
use arc_admin.Repo.Mfa.Challenges
use arc_admin.Repo.Mfa.RecoveryCodes
use arc_admin.Repo.AuditLogs.{record_log}
use arc_admin.Service.Passwords.{record_session_revocation}
use arc_admin.Service.Reauth.{verify_current_password, verify_totp_code}
use arc_admin.Service.Auth.{AuthSessionConfig, LoginSessionOutcome}
use arc_admin.Service.Auth.LoginSession.{TokenBytes}
use arc_admin.Service.Mfa.{read_login, settle, refuse, Passed, finish_login}
use arc_admin.Service.Mfa.Codes.{
  matching_recovery_code, generate_recovery_codes, hash_recovery_codes,
}
use arc_admin.Service.Mfa.Enrollment.{CodeBytes}

-- Outside a transaction: the code's row, by the challenge's user.
unfoldable pub find_code : External → ℕ → String → String → Db → Api (Option ℕ)
unfolding matching_recovery_code
find_code ext now challenge_hash recovery_code pool = do
  challenge ← ok_or (Challenges.challenge now pool challenge_hash "login") unauthorized
  matching_recovery_code ext recovery_code (RecoveryCodes.recovery_codes pool challenge.user_id)

abbrev pub consume_found : ℕ → Db → ℕ → Option ℕ → Bool × Db
consume_found now db user_id none = (false, db)
consume_found now db user_id (some id) = RecoveryCodes.consume_recovery_code now db user_id id

-- The rest of the transaction once the code is used: the user's sessions end.
unfoldable pub pass_recovery : ℕ → Db → ChallengeRow → Api (Api (ChallengeRow × LoginContext) × Db)
pass_recovery now db challenge = do
  login ← read_login challenge.state
  let used = Challenges.consume_challenge now db challenge.id
  let revoked = Sessions.revoke_all_for_user now used challenge.user_id
  ok (
    ok (challenge, login),
    record_log
        (record_session_revocation revoked.1 (some challenge.user_id) challenge.user_id
          "mfa_recovery_code" revoked.0)
        (some challenge.user_id) "auth.mfa.recovery_code.used" "user" (some challenge.user_id)
        (("revokedSessionCount", number revoked.0) ∷ []),
  )

unfoldable pub check_recovery :
    ℕ → String → Option ℕ → Db → Api (Api (ChallengeRow × LoginContext) × Db)
unfolding pass_recovery refuse
check_recovery now challenge_hash matching_id db = do
  challenge ← ok_or (Challenges.challenge_for_update now db challenge_hash "login") unauthorized
  let consumed = consume_found now db challenge.user_id matching_id
  if consumed.0
      then pass_recovery now consumed.1 challenge
      else ok (refuse now consumed.1 challenge "recovery_code")

unfoldable pub verify_recovery_login :
    External → ℕ → ℕ → AuthSessionConfig → TokenBytes → String → String → Action LoginSessionOutcome
unfolding find_code check_recovery token_hash
verify_recovery_login ext now utc_now config bytes challenge_token recovery_code =
    let challenge_hash = token_hash ext challenge_token in
    and_then (check (find_code ext now challenge_hash recovery_code)) λ matching_id.
      and_then (settle (transaction (check_recovery now challenge_hash matching_id))) λ passed.
        and_then (check λ db. ok_or (Users.find_by_id db passed.0.user_id) unauthorized) λ user.
          finish_login ext now utc_now config bytes
            (record { challenge = passed.0; login = passed.1; user = user })

unfoldable pub verify_password_and_totp : External → ℕ → ℕ → ℕ → String → String → Action (Unit {0})
unfolding verify_current_password
verify_password_and_totp ext step now user_id password code =
    and_then (check λ db. verify_current_password ext db user_id password)
      λ _. verify_totp_code ext step now user_id code

pub record MfaFactorRevokeRequest : Type 0 where
  pub current_password : String
  pub totp_code : String

unfoldable pub store_codes : ℕ → ℕ → List String → Db → Api ((Unit {0}) × Db)
store_codes now user_id hashes pool =
    let replaced = RecoveryCodes.replace_recovery_codes now pool user_id hashes in
    let revoked = Sessions.revoke_all_for_user now replaced user_id in
    ok (
      tt,
      record_log
          (record_session_revocation revoked.1 (some user_id) user_id "mfa_recovery_regenerated"
            revoked.0)
          (some user_id) "auth.mfa.recovery_codes.generated" "user" (some user_id)
          (("count", number (length hashes)) ∷ []),
    )

unfoldable pub regenerate_recovery_codes :
    External → ℕ → ℕ → CodeBytes → ℕ → MfaFactorRevokeRequest → Action (List String)
unfolding verify_password_and_totp generate_recovery_codes store_codes
regenerate_recovery_codes ext step now fresh user_id req =
    let codes = generate_recovery_codes fresh.draws in
    and_then (verify_password_and_totp ext step now user_id req.current_password req.totp_code) λ _.
      and_then (check λ db. hash_recovery_codes ext fresh.salts codes)
        λ hashes. and_then (transaction (store_codes now user_id hashes)) λ _ db. (ok codes, db)
