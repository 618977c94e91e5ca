-- ===== src/Service/Mfa/Begin.antt =====
-- `begin_login` of backend/src/services/mfa.rs: whether a login needs the second factor, and the
-- challenge that it gets.
use arc_admin.Prelude.{
  nat_eq, string_eq, Bool, List, Option, String, [], false, if◌then◌else◌, ltb, map, map_err, none,
  not, ok, some, true, ℕ, ◌&&◌, ◌+◌, ◌==◌, ◌>>=◌, ◌||◌, ◌∷◌,
}
use arc_admin.External.{External}
use arc_admin.Error.{Api, internal, from_db}
use arc_admin.Db.{Db, UserRow, LoginContext, login_state, enrollment_state, seconds, text, texts}
use arc_admin.Action.{Action, and_then, check, transaction}
use arc_admin.Mfa.{encrypt_totp_secret}
use arc_admin.Auth.Token.{random_token, token_hash}
use arc_admin.Repo.Mfa
use arc_admin.Repo.Mfa.{MfaSummaryRow}
use arc_admin.Repo.Mfa.Challenges
use arc_admin.Repo.AuditLogs.{record_log}
use arc_admin.Service.Auth.{
  LoginResponse, MfaMethod, totp, passkey, recovery_code, mfa_required, mfa_enrollment_required,
}
use arc_admin.Service.Mfa.{challenge_ttl_secs}

-- The random bytes of the token, of a new TOTP secret and of its nonce, and the new WebAuthn id.
pub record ChallengeBytes : Type 0 where
  pub token : List ℕ
  pub secret : List ℕ
  pub nonce : List ℕ
  pub uuid : String

unfoldable pub needs_factor : MfaSummaryRow → Bool
needs_factor summary = summary.is_required || summary.has_totp || not (summary.passkey_count == 0)

abbrev added : Bool → MfaMethod → List MfaMethod → List MfaMethod
added true method methods = method ∷ methods
added false method methods = methods

unfoldable pub methods_of : MfaSummaryRow → List MfaMethod
methods_of summary = added summary.has_totp totp (
    added (ltb 0 summary.passkey_count) passkey
      (added (ltb 0 summary.recovery_codes_remaining) recovery_code []))

-- `format!("{method:?}")`
abbrev method_name : MfaMethod → String
method_name totp = "Totp"
method_name passkey = "Passkey"
method_name recovery_code = "RecoveryCode"

-- The beginning of both transactions.
unfoldable pub clear_challenges : ℕ → Db → ℕ → Db
clear_challenges now pool user_id =
    (Challenges.consume_login_challenges_for_user now (Challenges.prune_challenges now pool)
      user_id).1

unfoldable pub start_enrollment :
    External → ℕ → ℕ → ChallengeBytes → UserRow → Bool → LoginContext → Db → Api ((Unit {0}) × Db)
unfolding clear_challenges
start_enrollment ext now utc_now bytes user persistent login pool = do
  let cleared = clear_challenges now pool user.id
  encrypted ← map_err internal (encrypt_totp_secret ext bytes.nonce user.id bytes.secret)
  settings ← from_db (Mfa.ensure_settings cleared user.id bytes.uuid)
  created ← from_db (
      Challenges.create_challenge settings.1 (token_hash ext (random_token bytes.token)) user.id
        "totp_enrollment" persistent (enrollment_state login (ext.base64_encode encrypted))
        (utc_now + seconds challenge_ttl_secs))
  ok (
    tt,
    record_log created (some user.id) "auth.mfa.enrollment.started" "user" (some user.id)
        (("factor", text "totp") ∷ []),
  )

unfoldable pub start_challenge :
    External
    → ℕ
    → ℕ
    → ChallengeBytes
    → UserRow
    → Bool
    → LoginContext
    → List MfaMethod
    → Db
    → Api ((Unit {0}) × Db)
unfolding clear_challenges
start_challenge ext now utc_now bytes user persistent login methods pool = do
  let cleared = clear_challenges now pool user.id
  created ← from_db (
      Challenges.create_challenge cleared (token_hash ext (random_token bytes.token)) user.id
        "login" persistent (login_state login) (utc_now + seconds challenge_ttl_secs))
  ok (
    tt,
    record_log created (some user.id) "auth.mfa.challenge.issued" "user" (some user.id)
        (("methods", texts (map method_name methods)) ∷ []),
  )

abbrev pub enrollment_response : List ℕ → (String × String × String) → LoginResponse
enrollment_response token view = record {
  status = mfa_enrollment_required;
  expires_at = none;
  user = none;
  challenge_token = some (random_token token);
  methods = totp ∷ [];
  totp_secret = some view.0;
  totp_uri = some view.1;
  totp_qr_code = some view.2;
  recovery_codes = [];
}

abbrev pub challenge_response : List ℕ → List MfaMethod → LoginResponse
challenge_response token methods = record {
  status = mfa_required;
  expires_at = none;
  user = none;
  challenge_token = some (random_token token);
  methods = methods;
  totp_secret = none;
  totp_uri = none;
  totp_qr_code = none;
  recovery_codes = [];
}

unfoldable pub begin_login :
    External
    → ℕ
    → ℕ
    → ℕ
    → ChallengeBytes
    → UserRow
    → Bool
    → LoginContext
    → Action (Option LoginResponse)
unfolding needs_factor methods_of start_enrollment start_challenge random_token
begin_login ext step now utc_now bytes user persistent login pool =
    let summary = Mfa.summary pool user.id in
    if not (needs_factor summary)
    then (ok none, pool)
    else if summary.is_required && not summary.has_totp
    then and_then (transaction (start_enrollment ext now utc_now bytes user persistent login))
        (λ _. check λ db. do
          view ← map_err internal (ext.totp_enrollment step bytes.secret user.username)
          ok (some (enrollment_response bytes.token view)))
        pool
    else and_then
        (transaction
          (start_challenge ext now utc_now bytes user persistent login (methods_of summary)))
        (λ _. check λ db. ok (some (challenge_response bytes.token (methods_of summary)))) pool
