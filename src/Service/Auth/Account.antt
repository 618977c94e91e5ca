-- ===== src/Service/Auth/Account.antt =====
-- `logout`, `me`, `permission_codes` and `change_password` of backend/src/services/auth.rs.
use arc_admin.Prelude.{
  nat_eq, string_eq, List, String, [], fail_if, if◌then◌else◌, is_empty, ok, ok_or, some, true, ℕ,
  ◌==◌, ◌>>=◌, ◌>>◌, ◌∷◌,
}
use arc_admin.External.{External}
use arc_admin.Error.{Api, unauthorized, not_found, validation}
use arc_admin.Db.{Db, flag, number}
use arc_admin.Action.{Action, and_then, check, transaction}
use arc_admin.Repo.Users
use arc_admin.Repo.Sessions
use arc_admin.Repo.Permissions
use arc_admin.Repo.AuditLogs.{record_log}
use arc_admin.Service.Passwords.{validate_password, hash_password, record_session_revocation}
use arc_admin.Service.Reauth.{verify_current_password}
use arc_admin.Service.Auth.{UserResponse, user_response}

unfoldable pub logout : ℕ → ℕ → ℕ → Db → Db
logout now user_id session_id pool =
    let revoked = Sessions.revoke now pool session_id user_id in
    record_log
      (record_session_revocation revoked.1 (some user_id) user_id "logout"
        (if revoked.0 then 1 else 0))
      (some user_id) "auth.logout" "auth_session" (some session_id) []

unfoldable pub me : Db → ℕ → Api UserResponse
unfolding user_response
me pool user_id = do
  row ← ok_or (Users.find_by_id pool user_id) (not_found "用户不存在")
  ok (user_response row (Users.role_names_by_user pool user_id))

unfoldable pub permission_codes : Db → ℕ → List String
permission_codes pool user_id = Permissions.permission_codes_by_user pool user_id

pub record ChangePasswordRequest : Type 0 where
  pub current_password : String
  pub new_password : String

unfoldable pub check_passwords : ChangePasswordRequest → Api (Unit {0})
check_passwords req = do
  fail_if (is_empty req.current_password) (validation "当前密码不能为空")
  validate_password req.new_password
  fail_if (req.current_password == req.new_password) (validation "新密码不能与当前密码相同")

-- The transaction of `change_password`.
unfoldable pub store_password : ℕ → ℕ → String → Db → Api ((Unit {0}) × Db)
store_password now user_id password_hash pool = do
  let changed = Users.update_password pool user_id password_hash
  row ← ok_or changed.0 unauthorized
  let revoked = Sessions.revoke_all_for_user now changed.1 user_id
  ok (
    tt,
    record_log
        (record_session_revocation revoked.1 (some user_id) user_id "password_change" revoked.0)
        (some user_id) "user.password.change" "user" (some user_id)
        (("revokedExistingSessions", flag true) ∷ ("revokedSessionCount", number revoked.0) ∷ []),
  )

abbrev pub prepare_password : External → List ℕ → ℕ → ChangePasswordRequest → Db → Api String
prepare_password ext salt user_id req pool = do
  check_passwords req
  verify_current_password ext pool user_id req.current_password
  hash_password ext salt req.new_password

-- `salt` is the random salt of the new hash.
unfoldable pub change_password :
    External → ℕ → List ℕ → ℕ → ChangePasswordRequest → Action (Unit {0})
unfolding check_passwords store_password
change_password ext now salt user_id req =
    and_then (check (prepare_password ext salt user_id req))
      λ password_hash. transaction (store_password now user_id password_hash)
