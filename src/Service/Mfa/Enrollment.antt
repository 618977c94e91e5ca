-- ===== src/Service/Mfa/Enrollment.antt =====
-- `verify_totp_enrollment` and `verify_totp` of backend/src/services/mfa.rs.
use arc_admin.Prelude.{
  nat_eq, string_eq, List, String, [], if◌then◌else◌, length, map_err, ok, ok_or, some, ℕ, ◌==◌,
  ◌>>=◌, ◌∷◌,
}
use arc_admin.External.{External}
use arc_admin.Error.{Api, unauthorized, internal}
use arc_admin.Db.{Db, UserRow, text, number}
use arc_admin.Action.{Action, and_then, check, transaction}
use arc_admin.Mfa.{decrypt_totp_secret}
use arc_admin.Auth.Token.{token_hash}
use arc_admin.Repo.Users
use arc_admin.Repo.Mfa
use arc_admin.Repo.Mfa.Challenges
use arc_admin.Repo.Mfa.RecoveryCodes
use arc_admin.Repo.AuditLogs.{record_log}
use arc_admin.Service.Auth.{AuthSessionConfig, LoginSessionOutcome}
use arc_admin.Service.Auth.LoginSession.{TokenBytes}
use arc_admin.Service.Mfa.{read_enrollment, settle, refuse, Passed, finish_login}
use arc_admin.Service.Mfa.Codes.{generate_recovery_codes, hash_recovery_codes}
use arc_admin.Service.Mfa.Totp.{is_valid_code, verify_totp_login}

-- The random bytes of the ten recovery codes and the salts of their hashes.
pub record CodeBytes : Type 0 where
  pub draws : List (List ℕ)
  pub salts : List (List ℕ)

-- `STANDARD.decode(…).map_err(|_| ApiError::unauthorized())`
abbrev decoded : External → String → Api (List ℕ)
decoded ext encrypted_secret = ok_or (ext.base64_decode encrypted_secret) unauthorized

-- The first transaction, which is rolled back where the code passes: the user and the secret that is
-- to be enabled.
unfoldable pub check_enrollment :
    External → ℕ → ℕ → String → String → Db → Api (Api (UserRow × List ℕ) × Db)
unfolding is_valid_code refuse
check_enrollment ext step now challenge_hash code db = do
  challenge ←
      ok_or (Challenges.challenge_for_update now db challenge_hash "totp_enrollment") unauthorized
  state ← read_enrollment challenge.state
  encrypted ← decoded ext state.1
  secret ← map_err internal (decrypt_totp_secret ext challenge.user_id encrypted)
  user ← ok_or (Users.find_by_id db challenge.user_id) unauthorized
  valid ← is_valid_code ext step now user.username secret code
  ok (if valid then (ok (user, encrypted), db) else refuse now db challenge "totp_enrollment")

-- The second transaction reads the challenge again.
unfoldable pub complete_enrollment :
    ℕ → String → UserRow → List ℕ → List String → Db → Api (Passed × Db)
complete_enrollment now challenge_hash user encrypted hashes db = do
  challenge ←
      ok_or (Challenges.challenge_for_update now db challenge_hash "totp_enrollment") unauthorized
  state ← read_enrollment challenge.state
  let enabled = Mfa.enable_totp now db challenge.user_id encrypted
  let replaced = RecoveryCodes.replace_recovery_codes now enabled challenge.user_id hashes
  let used = Challenges.consume_challenge now replaced challenge.id
  ok (
    record { challenge = challenge; login = state.0; user = user },
    record_log used (some challenge.user_id) "auth.mfa.enrollment.completed" "user"
        (some challenge.user_id)
        (("factor", text "totp") ∷ ("recoveryCodeCount", number (length hashes)) ∷ []),
  )

abbrev with_codes : List String → LoginSessionOutcome → LoginSessionOutcome
with_codes codes outcome = record outcome {
  response = record outcome.response { recovery_codes = codes };
}

unfoldable pub verify_totp_enrollment :
    External
    → ℕ
    → ℕ
    → ℕ
    → AuthSessionConfig
    → TokenBytes
    → CodeBytes
    → String
    → String
    → Action LoginSessionOutcome
unfolding check_enrollment complete_enrollment token_hash generate_recovery_codes
verify_totp_enrollment ext step now utc_now config bytes fresh challenge_token code =
    let challenge_hash = token_hash ext challenge_token in
    let codes = generate_recovery_codes fresh.draws in
    and_then (settle (transaction (check_enrollment ext step now challenge_hash code))) λ valid.
      and_then (check (λ db. hash_recovery_codes ext fresh.salts codes)) λ hashes.
        and_then (transaction (complete_enrollment now challenge_hash valid.0 valid.1 hashes))
          λ passed.
            and_then (finish_login ext now utc_now config bytes passed)
              λ outcome db. (ok (with_codes codes outcome), db)

unfoldable pub verify_totp :
    External
    → ℕ
    → ℕ
    → ℕ
    → AuthSessionConfig
    → TokenBytes
    → CodeBytes
    → String
    → String
    → Action LoginSessionOutcome
unfolding verify_totp_enrollment verify_totp_login token_hash
verify_totp ext step now utc_now config bytes fresh challenge_token code =
    and_then
      (check λ db.
        ok_or (Challenges.challenge_kind now db (token_hash ext challenge_token)) unauthorized)
      λ kind.
        if kind == "totp_enrollment"
        then verify_totp_enrollment ext step now utc_now config bytes fresh challenge_token code
        else verify_totp_login ext step now utc_now config bytes challenge_token code
