-- ===== src/Service/Reauth.antt =====
-- The re-authentication of a signed-in user: `verify_current_password` and `verify_password_hash` of
-- backend/src/services/auth.rs, `verify_reauthentication` and `verify_totp_code` of
-- backend/src/services/mfa.rs. The limit on concurrent Argon2 runs is not modelled.
pub mod Replay
use arc_admin.Prelude.{
  nat_eq, string_eq, Bool, List, Option, String, fail_if, false, if◌then◌else◌, is_empty, map_err,
  none, not, ok, ok_or, some, trim, true, ℕ, ◌>>=◌, ◌>>◌, ◌||◌,
}
use arc_admin.External.{External}
use arc_admin.Error.{Api, unauthorized, forbidden, validation, internal}
use arc_admin.Db.{Db, UserRow}
use arc_admin.Action.{Action, transaction, and_then, check}
use arc_admin.Mfa.{decrypt_totp_secret}
use arc_admin.Repo.Users
use arc_admin.Repo.Mfa

unfoldable pub verify_password_hash : External → String → String → Api Bool
verify_password_hash ext password encoded_hash = do
  fail_if (not (ext.is_password_hash encoded_hash)) (internal "invalid stored password hash")
  ok (ext.argon2_verify password encoded_hash)

unfoldable pub verify_current_password : External → Db → ℕ → String → Api (Unit {0})
unfolding verify_password_hash
verify_current_password ext db user_id password = do
  row ← ok_or (Users.find_by_id db user_id) unauthorized
  password_matches ← verify_password_hash ext password row.password_hash
  fail_if (not password_matches) (validation "当前密码不正确")

-- `totp_step_secs` is the step of the configuration; `now` is the time of the TOTP check and of the
-- transaction.
unfoldable pub matching_totp_counter : External → ℕ → ℕ → String → List ℕ → String → Api (Option ℕ)
matching_totp_counter ext totp_step_secs now username secret code =
    map_err internal (ext.totp_check totp_step_secs secret username (trim code) now)

abbrev pub used_code : String
used_code = "验证码已使用或已过期，请输入最新验证码"

totp_transaction : External → ℕ → ℕ → ℕ → String → UserRow → Db → Api ((Unit {0}) × Db)
unfolding matching_totp_counter
totp_transaction ext totp_step_secs now user_id code user db = do
  encrypted ← ok_or (Mfa.totp_secret db user_id) (forbidden "该账号尚未完成 TOTP 注册")
  secret ← map_err internal (decrypt_totp_secret ext user_id encrypted)
  matched ← matching_totp_counter ext totp_step_secs now user.username secret code
  counter ← ok_or matched (validation "身份验证器验证码不正确")
  let consumed = Mfa.consume_reauth_totp_counter now db user_id counter
  fail_if (not consumed.0) (validation used_code)
  ok (tt, consumed.1)

unfoldable pub verify_totp_code : External → ℕ → ℕ → ℕ → String → Action (Unit {0})
unfolding totp_transaction
verify_totp_code ext totp_step_secs now user_id code =
    and_then (check (λ db. ok_or (Users.find_by_id db user_id) unauthorized))
      λ user. transaction (totp_transaction ext totp_step_secs now user_id code user)

-- `code.filter(|value| !value.trim().is_empty())`
given_code : Option String → Option String
given_code none = none
given_code (some code) = if is_empty (trim code) then none else some code

-- The second factor, where the account has one or must have one.
second_factor : External → ℕ → ℕ → ℕ → Option String → Bool → Action (Unit {0})
unfolding given_code verify_totp_code
second_factor ext totp_step_secs now user_id code false = λ db. (ok tt, db)
second_factor ext totp_step_secs now user_id code true =
    and_then (check (λ db. ok_or (given_code code) (forbidden "该操作需要身份验证器验证码")))
      (verify_totp_code ext totp_step_secs now user_id)

unfoldable pub verify_reauthentication :
    External → ℕ → ℕ → ℕ → String → Option String → Action (Unit {0})
unfolding verify_current_password second_factor
verify_reauthentication ext totp_step_secs now user_id password code =
    and_then (check (λ db. verify_current_password ext db user_id password)) λ _ db.
      second_factor ext totp_step_secs now user_id code
        (Mfa.totp_enabled db user_id || Mfa.required db user_id) db
