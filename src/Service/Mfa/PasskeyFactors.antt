-- ===== src/Service/Mfa/PasskeyFactors.antt =====
-- The passkeys of an account: `status`, `start_passkey_registration`, `finish_passkey_registration`
-- and `revoke_passkey` of backend/src/services/mfa.rs.
use arc_admin.Prelude.{
  nat_eq, string_eq, Bool, List, Option, String, [], char_count, fail_if, false, if◌then◌else◌,
  is_empty, ltb, map, map_err, none, not, ok, ok_or, some, trim, ℕ, ◌+◌, ◌==◌, ◌>>=◌, ◌>>◌, ◌||◌,
  ◌∷◌,
}
use arc_admin.External.{External}
use arc_admin.Error.{Api, unauthorized, not_found, validation, internal, from_db}
use arc_admin.Db.{Db, ChallengeRow, PasskeyRow, passkey_registration_state, seconds, text, number}
use arc_admin.Action.{Action, and_then, check, transaction}
use arc_admin.Auth.Token.{token_hash, random_token}
use arc_admin.Repo.Sessions
use arc_admin.Repo.Mfa
use arc_admin.Repo.Mfa.Challenges
use arc_admin.Repo.Mfa.Passkeys
use arc_admin.Repo.AuditLogs.{record_log}
use arc_admin.Service.Passwords.{record_session_revocation}
use arc_admin.Service.Auth.{UserResponse}
use arc_admin.Service.Mfa.{read_registration, challenge_ttl_secs}
use arc_admin.Service.Mfa.Recovery.{verify_password_and_totp, MfaFactorRevokeRequest}
use arc_admin.Service.Mfa.PasskeyLogin.{WebauthnChallenge, StartBytes, encode_credential_id}

-- The column created_at is left out.
pub record MfaPasskeyResponse : Type 0 where
  pub id : ℕ
  pub name : String
  pub last_used_at : Option ℕ

pub record MfaStatusResponse : Type 0 where
  pub is_required : Bool
  pub has_totp : Bool
  pub recovery_codes_remaining : ℕ
  pub passkeys : List MfaPasskeyResponse

unfoldable pub status : Db → ℕ → MfaStatusResponse
status pool user_id =
    let summary = Mfa.summary pool user_id in
    record {
      is_required = summary.is_required;
      has_totp = summary.has_totp;
      recovery_codes_remaining = summary.recovery_codes_remaining;
      passkeys =
          map
            (λ (k : PasskeyRow).
              let shown : MfaPasskeyResponse = record {
                id = k.id;
                name = k.name;
                last_used_at = k.last_used_at;
              } in
              shown)
            (Passkeys.list_passkeys pool user_id);
    }

pub record RegistrationStartRequest : Type 0 where
  pub name : String
  pub current_password : String
  pub totp_code : String

-- `exclude` are the passkeys that the pool showed; `uuid` is the new WebAuthn id.
unfoldable pub store_registration :
    External
    → ℕ
    → StartBytes
    → String
    → UserResponse
    → String
    → List (List ℕ)
    → Db
    → Api (WebauthnChallenge × Db)
store_registration ext utc_now bytes uuid user name exclude db = do
  settings ← from_db (Mfa.ensure_settings db user.id uuid)
  started ←
      map_err internal
        (ext.start_registration bytes.entropy settings.0 user.username user.display_name exclude)
  created ← from_db (
      Challenges.create_challenge settings.1 (token_hash ext (random_token bytes.token)) user.id
        "passkey_registration" false (passkey_registration_state name started.1)
        (utc_now + seconds challenge_ttl_secs))
  ok (
    record { challenge_token = random_token bytes.token; public_key = started.0 },
    record_log created (some user.id) "auth.mfa.enrollment.started" "user" (some user.id)
        (("factor", text "passkey") ∷ []),
  )

unfoldable pub start_passkey_registration :
    External
    → ℕ
    → ℕ
    → ℕ
    → StartBytes
    → String
    → UserResponse
    → RegistrationStartRequest
    → Action WebauthnChallenge
unfolding verify_password_and_totp store_registration
start_passkey_registration ext step now utc_now bytes uuid user req =
    let name = trim req.name in
    and_then
      (check λ db.
        fail_if (is_empty name || ltb 80 (char_count name)) (validation "通行密钥名称长度必须为 1-80 个字符"))
      λ _.
        and_then (verify_password_and_totp ext step now user.id req.current_password req.totp_code)
          λ _ db.
            transaction
              (store_registration ext utc_now bytes uuid user name (
                map (λ (k : PasskeyRow). ext.cred_id k.credential)
                  (Passkeys.list_passkeys db user.id)))
              db

abbrev of_user : ℕ → Option ChallengeRow → Option ChallengeRow
of_user user_id none = none
of_user user_id (some c) = if c.user_id == user_id then some c else none

unfoldable pub store_passkey : External → ℕ → ℕ → String → String → Db → Api ((Unit {0}) × Db)
unfolding encode_credential_id
store_passkey ext now user_id challenge_hash given db = do
  challenge ←
      ok_or
        (of_user user_id
          (Challenges.challenge_for_update now db challenge_hash "passkey_registration"))
        unauthorized
  state ← read_registration challenge.state
  credential ← map_err internal (ext.parse_registration given)
  passkey ← ok_or (ext.finish_registration credential state.1) (validation "通行密钥注册失败，请重试")
  created ← from_db (
      Passkeys.create_passkey db user_id state.0 (encode_credential_id ext (ext.cred_id passkey))
        passkey)
  let used = Challenges.consume_challenge now created.1 challenge.id
  ok (
    tt,
    record_log used (some user_id) "auth.mfa.enrollment.completed" "user" (some user_id)
        (("factor", text "passkey") ∷ []),
  )

unfoldable pub finish_passkey_registration :
    External → ℕ → ℕ → String → String → Action MfaStatusResponse
unfolding store_passkey status token_hash
finish_passkey_registration ext now user_id challenge_token credential =
    and_then
      (transaction (store_passkey ext now user_id (token_hash ext challenge_token) credential))
      λ _. check λ pool. ok (status pool user_id)

unfoldable pub remove_passkey : ℕ → ℕ → ℕ → Db → Api ((Unit {0}) × Db)
remove_passkey now user_id passkey_id pool = do
  let deleted = Passkeys.delete_passkey pool user_id passkey_id
  fail_if (not deleted.0) (not_found "通行密钥不存在")
  let revoked = Sessions.revoke_all_for_user now deleted.1 user_id
  ok (
    tt,
    record_log
        (record_session_revocation revoked.1 (some user_id) user_id "mfa_factor_revoked" revoked.0)
        (some user_id) "auth.mfa.factor.revoked" "user" (some user_id)
        (("factor", text "passkey") ∷ ("revokedSessionCount", number revoked.0) ∷ []),
  )

unfoldable pub revoke_passkey :
    External → ℕ → ℕ → ℕ → ℕ → MfaFactorRevokeRequest → Action (Unit {0})
unfolding verify_password_and_totp remove_passkey
revoke_passkey ext step now user_id passkey_id req =
    and_then (verify_password_and_totp ext step now user_id req.current_password req.totp_code)
      λ _. transaction (remove_passkey now user_id passkey_id)
