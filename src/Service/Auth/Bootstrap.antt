-- ===== src/Service/Auth/Bootstrap.antt =====
-- `bootstrap_super_admin` of backend/src/services/auth.rs, which the command line calls.
use arc_admin.Prelude.{
  nat_eq, string_eq, Bool, List, Option, String, [], all_chars, byte_len, char_count, fail_if,
  is_ascii_alphanumeric, is_empty, leb, ltb, none, not, ok, ok_or, some, trim, ℕ, ◌&&◌, ◌==◌, ◌>>=◌,
  ◌>>◌, ◌||◌, ◌∷◌,
}
use arc_admin.External.{External}
use arc_admin.Error.{Api, validation, internal, from_db}
use arc_admin.Db.{Db, UserRow, text, number}
use arc_admin.Action.{Action, and_then, check, transaction}
use arc_admin.Repo.Users
use arc_admin.Repo.Users.{NewUser}
use arc_admin.Repo.Roles
use arc_admin.Repo.Sessions
use arc_admin.Repo.Organizations
use arc_admin.Repo.AuditLogs.{record_log}
use arc_admin.Service.Passwords.{validate_password, hash_password, record_session_revocation}
use arc_admin.Service.Auth.{UserResponse, user_response}

abbrev is_name_char : ℕ → Bool
is_name_char c = is_ascii_alphanumeric c || c == b'_' || c == b'-'

unfoldable pub validate_bootstrap : String → String → String → Api (Unit {0})
validate_bootstrap username password display_name = do
  fail_if
      (not (leb 3 (byte_len username) && leb (byte_len username) 64)
        || not (all_chars is_name_char username))
      (validation "管理员用户名需为 3-64 位字母、数字、下划线或连字符")
  validate_password password
  fail_if (ltb (char_count password) 16) (validation "引导管理员密码不能少于 16 位")
  fail_if (is_empty display_name || ltb 128 (byte_len display_name))
      (validation "显示名称长度需在 1-128 个字符之间")

-- What the call reads and computes before its transaction.
pub record Prepared : Type 0 where
  pub role_id : ℕ
  pub existing : Option UserRow
  pub assignment : ℕ × Option ℕ
  pub password_hash : String

unfoldable pub prepare : External → List ℕ → String → String → String → Db → Api Prepared
unfolding validate_bootstrap
prepare ext salt username password display_name pool = do
  validate_bootstrap username password display_name
  role_id ← ok_or (Roles.id_by_code pool "super_admin") (internal "缺少内置超级管理员角色")
  assignment ← from_db (Organizations.default_assignment pool)
  password_hash ← hash_password ext salt password
  ok (record {
    role_id = role_id;
    existing = Users.find_by_username pool username;
    assignment = assignment;
    password_hash = password_hash;
  })

-- The account that is there, or a new one.
unfoldable pub bootstrap_account :
    Prepared → String → String → Option String → Option UserRow → Db → Api (UserRow × Db)
bootstrap_account prepared username display_name email (some existing) db =
    from_db
      (Users.activate_bootstrap_account db existing.id prepared.password_hash display_name email)
bootstrap_account prepared username display_name email none db =
    let user : NewUser = record {
      username = username;
      password_hash = prepared.password_hash;
      display_name = display_name;
      email = email;
      status = "active";
      organization_id = prepared.assignment.0;
      department_id = prepared.assignment.1;
    } in
    from_db (Users.create db user)

unfoldable pub store_bootstrap :
    ℕ → String → String → Option String → Prepared → Db → Api (UserRow × Db)
unfolding bootstrap_account
store_bootstrap now username display_name email prepared pool = do
  (row, stored) ← bootstrap_account prepared username display_name email prepared.existing pool
  assigned ← from_db (Users.assign_roles stored row.id (prepared.role_id ∷ []))
  let revoked = Sessions.revoke_all_for_user now assigned row.id
  ok (
    row,
    record_log (record_session_revocation revoked.1 none row.id "bootstrap_reactivation" revoked.0)
        none "user.bootstrap_super_admin" "user" (some row.id)
        (("username", text username) ∷ ("roleId", number prepared.role_id) ∷ []),
  )

unfoldable pub bootstrap_super_admin :
    External → ℕ → List ℕ → String → String → String → Option String → Action UserResponse
unfolding prepare store_bootstrap user_response
bootstrap_super_admin ext now salt given_name password given_display email =
    let username = trim given_name in
    let display_name = trim given_display in
    and_then (check (prepare ext salt username password display_name)) λ prepared.
      and_then (transaction (store_bootstrap now username display_name email prepared))
        λ row. check λ pool. ok (user_response row (Users.role_names_by_user pool row.id))
