-- ===== src/Repo/Mfa.antt =====
-- backend/src/repositories/mfa.rs: the settings of the second factor, and its summary.
pub mod Challenges
pub mod RecoveryCodes
pub mod Passkeys
use arc_admin.Prelude.{
  nat_eq, string_eq, Bool, List, Option, String, count_where, exists, fail_if, false,
  fetch_optional, is_none, is_some, ltb, none, ok, some, true, update_where, ℕ, ◌&&◌, ◌==◌, ◌>>=◌,
  ◌>>◌, ◌∷◌,
}
use arc_admin.Error.{Sql, unique_violation}
use arc_admin.Db.{Db, MfaSettingsRow, UserRoleRow, RoleRow, RecoveryCodeRow, PasskeyRow}

abbrev enabled : Option MfaSettingsRow → Bool
enabled none = false
enabled (some m) = is_some m.totp_enabled_at

-- The columns `required` and `totp_enabled` of `summary`.
unfoldable pub required : Db → ℕ → Bool
required db user_id =
    exists
      (λ (ur : UserRoleRow).
        ur.user_id == user_id
        && exists (λ (r : RoleRow). r.id == ur.role_id && r.code == "super_admin" && r.is_active)
            db.roles)
      db.user_roles

unfoldable pub totp_enabled : Db → ℕ → Bool
totp_enabled db user_id =
    enabled (fetch_optional (λ (m : MfaSettingsRow). m.user_id == user_id) db.mfa_settings)

abbrev ciphertext : Option MfaSettingsRow → Option (List ℕ)
ciphertext none = none
ciphertext (some m) = m.totp_secret_ciphertext

unfoldable pub totp_secret : Db → ℕ → Option (List ℕ)
totp_secret db user_id = ciphertext (
    fetch_optional (λ (m : MfaSettingsRow). m.user_id == user_id && is_some m.totp_enabled_at)
      db.mfa_settings)

-- `last_reauth_totp_counter IS NULL OR last_reauth_totp_counter < $2`
abbrev pub is_fresh : Option ℕ → ℕ → Bool
is_fresh none counter = true
is_fresh (some last) counter = ltb last counter

unfoldable pub accepts_counter : ℕ → ℕ → MfaSettingsRow → Bool
accepts_counter user_id counter m =
    m.user_id == user_id && is_fresh m.last_reauth_totp_counter counter

unfoldable pub consume_reauth_totp_counter : ℕ → Db → ℕ → ℕ → Bool × Db
unfolding accepts_counter
consume_reauth_totp_counter now db user_id counter = (
  exists (accepts_counter user_id counter) db.mfa_settings,
  record db {
    mfa_settings =
        update_where (accepts_counter user_id counter)
          (λ m. record m {
            last_reauth_totp_counter = some counter;
            last_reauth_totp_used_at = some now;
          })
          db.mfa_settings;
  },
)

-- The row of `summary`; `webauthn_user_id` is read nowhere.
pub record MfaSummaryRow : Type 0 where
  pub is_required : Bool
  pub has_totp : Bool
  pub recovery_codes_remaining : ℕ
  pub passkey_count : ℕ

unfoldable pub summary : Db → ℕ → MfaSummaryRow
unfolding required totp_enabled
summary db user_id = record {
  is_required = required db user_id;
  has_totp = totp_enabled db user_id;
  recovery_codes_remaining =
      count_where (λ (c : RecoveryCodeRow). c.user_id == user_id && is_none c.used_at)
        db.recovery_codes;
  passkey_count = count_where (λ (k : PasskeyRow). k.user_id == user_id) db.passkeys;
}

abbrev new_settings : ℕ → String → MfaSettingsRow
new_settings user_id webauthn_user_id = record {
  user_id = user_id;
  webauthn_user_id = webauthn_user_id;
  totp_secret_ciphertext = none;
  totp_enabled_at = none;
  recovery_codes_issued_at = none;
  last_reauth_totp_counter = none;
  last_reauth_totp_used_at = none;
}

-- INSERT … ON CONFLICT (user_id): the row of the user stays as it is. A second row with the same
-- WebAuthn id violates the table's other key.
settings_of : Db → ℕ → String → Option MfaSettingsRow → Sql (String × Db)
settings_of db user_id webauthn_user_id (some m) = ok (m.webauthn_user_id, db)
settings_of db user_id webauthn_user_id none = do
  fail_if (exists (λ (m : MfaSettingsRow). m.webauthn_user_id == webauthn_user_id) db.mfa_settings)
      unique_violation
  ok (
    webauthn_user_id,
    record db { mfa_settings = new_settings user_id webauthn_user_id ∷ db.mfa_settings },
  )

unfoldable pub ensure_settings : Db → ℕ → String → Sql (String × Db)
unfolding settings_of
ensure_settings db user_id webauthn_user_id =
    settings_of db user_id webauthn_user_id
      (fetch_optional (λ (m : MfaSettingsRow). m.user_id == user_id) db.mfa_settings)

unfoldable pub enable_totp : ℕ → Db → ℕ → List ℕ → Db
enable_totp now db user_id ciphertext = record db {
  mfa_settings =
      update_where (λ (m : MfaSettingsRow). m.user_id == user_id)
        (λ m. record m { totp_secret_ciphertext = some ciphertext; totp_enabled_at = some now })
        db.mfa_settings;
}
