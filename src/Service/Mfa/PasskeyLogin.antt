-- ===== src/Service/Mfa/PasskeyLogin.antt =====
-- A login with a passkey: `start_passkey_authentication` and `finish_passkey_authentication` of
-- backend/src/services/mfa.rs.
use arc_admin.Prelude.{
  nat_eq, string_eq, List, Option, String, [], fetch_optional, if◌then◌else◌, map, map_err, none,
  ok, ok_or, some, ℕ, ◌+◌, ◌==◌, ◌>>=◌, ◌∷◌,
}
use arc_admin.External.{External, AuthenticationResult}
use arc_admin.Error.{Api, unauthorized, internal, from_db}
use arc_admin.Db.{
  Db, ChallengeRow, LoginContext, PasskeyRow, passkey_authentication_state, seconds, text,
}
use arc_admin.Action.{Action, and_then, check, transaction}
use arc_admin.Auth.Token.{token_hash, random_token}
use arc_admin.Repo.Users
use arc_admin.Repo.Mfa.Challenges
use arc_admin.Repo.Mfa.Passkeys
use arc_admin.Repo.AuditLogs.{record_log}
use arc_admin.Service.Auth.{AuthSessionConfig, LoginSessionOutcome}
use arc_admin.Service.Auth.LoginSession.{TokenBytes}
use arc_admin.Service.Mfa.{
  read_login, read_authentication, settle, refuse, finish_login, challenge_ttl_secs,
}

pub record WebauthnChallenge : Type 0 where
  pub challenge_token : String
  pub public_key : String

-- The random bytes of the new challenge's token, and the randomness of WebAuthn's challenge.
pub record StartBytes : Type 0 where
  pub token : List ℕ
  pub entropy : List ℕ

unfoldable pub exchange_challenge :
    External → ℕ → ℕ → StartBytes → String → Db → Api (WebauthnChallenge × Db)
exchange_challenge ext now utc_now bytes challenge_hash db = do
  challenge ← ok_or (Challenges.challenge_for_update now db challenge_hash "login") unauthorized
  login ← read_login challenge.state
  let credentials =
      map (λ (k : PasskeyRow). k.credential) (Passkeys.list_passkeys db challenge.user_id)
  started ← map_err internal (ext.start_authentication bytes.entropy credentials)
  let used = Challenges.consume_challenge now db challenge.id
  created ← from_db (
      Challenges.create_challenge used (token_hash ext (random_token bytes.token)) challenge.user_id
        "passkey_authentication" challenge.persistent (passkey_authentication_state login started.1)
        (utc_now + seconds challenge_ttl_secs))
  ok (record { challenge_token = random_token bytes.token; public_key = started.0 }, created)

unfoldable pub start_passkey_authentication :
    External → ℕ → ℕ → StartBytes → String → Action WebauthnChallenge
unfolding exchange_challenge token_hash
start_passkey_authentication ext now utc_now bytes challenge_token =
    transaction (exchange_challenge ext now utc_now bytes (token_hash ext challenge_token))

unfoldable pub encode_credential_id : External → List ℕ → String
encode_credential_id ext id = ext.base64_url_encode id

-- The passkey of the list that was used.
unfoldable pub used_passkey : External → List PasskeyRow → AuthenticationResult → Option PasskeyRow
unfolding encode_credential_id
used_passkey ext passkeys result =
    fetch_optional
      (λ (k : PasskeyRow).
        encode_credential_id ext (ext.cred_id k.credential)
        == encode_credential_id ext result.used_id)
      passkeys

abbrev credential_after : AuthenticationResult → PasskeyRow → String
credential_after result row =
    if result.needs_update then result.update_credential row.credential else row.credential

-- Where the browser's answer was good; a passkey that is not the user's drops the transaction.
unfoldable pub pass_passkey :
    External
    → ℕ
    → Db
    → ChallengeRow
    → LoginContext
    → AuthenticationResult
    → Api (Api (ChallengeRow × LoginContext) × Db)
unfolding used_passkey
pass_passkey ext now db challenge login result = do
  row ← ok_or (used_passkey ext (Passkeys.list_passkeys db challenge.user_id) result) unauthorized
  let updated = Passkeys.update_passkey_after_use now db row.id (credential_after result row)
  let used = Challenges.consume_challenge now updated challenge.id
  ok (
    ok (challenge, login),
    record_log used (some challenge.user_id) "auth.mfa.verify.success" "user"
        (some challenge.user_id) (("factor", text "passkey") ∷ []),
  )

abbrev checked_passkey :
    External
    → ℕ
    → Db
    → ChallengeRow
    → LoginContext
    → Option AuthenticationResult
    → Api (Api (ChallengeRow × LoginContext) × Db)
checked_passkey ext now db challenge login none = ok (refuse now db challenge "passkey")
checked_passkey ext now db challenge login (some result) =
    pass_passkey ext now db challenge login result

unfoldable pub check_passkey :
    External → ℕ → String → String → Db → Api (Api (ChallengeRow × LoginContext) × Db)
unfolding pass_passkey refuse
check_passkey ext now challenge_hash credential db = do
  challenge ←
      ok_or (Challenges.challenge_for_update now db challenge_hash "passkey_authentication")
        unauthorized
  state ← read_authentication challenge.state
  checked_passkey ext now db challenge state.0 (ext.finish_authentication credential state.1)

unfoldable pub finish_passkey_authentication :
    External → ℕ → ℕ → AuthSessionConfig → TokenBytes → String → String → Action LoginSessionOutcome
unfolding check_passkey token_hash
finish_passkey_authentication ext now utc_now config bytes challenge_token credential =
    and_then
      (settle (transaction (check_passkey ext now (token_hash ext challenge_token) credential)))
      λ passed.
        and_then (check λ db. ok_or (Users.find_by_id db passed.0.user_id) unauthorized) λ user.
          finish_login ext now utc_now config bytes
            (record { challenge = passed.0; login = passed.1; user = user })
