-- ===== src/Service/Users/Profile.antt =====
-- `create`, `update` and `update_by_actor` of backend/src/services/users.rs. `pool` is the committed
-- database, which is also what their transaction starts from. The role names in a response are not
-- modelled: the response is the user's row.
use arc_admin.Prelude.{
  nat_eq, string_eq, Bool, List, Option, String, [], err, fail_if, if◌then◌else◌, is_some,
  is_some_and, is_some_of, none, not, ok, ok_or, some, unwrap_or, ℕ, ◌&&◌, ◌==◌, ◌>>=◌, ◌>>◌, ◌||◌,
  ◌∷◌,
}
use arc_admin.Access.{ActorContext, can_create_peer}
use arc_admin.External.{External}
use arc_admin.Error.{Api, forbidden, validation, not_found, from_db}
use arc_admin.Db.{Db, UserRow, text, ids, flag}
use arc_admin.Repo.Users
use arc_admin.Repo.Users.{NewUser}
use arc_admin.Repo.AuditLogs.{record_log}
use arc_admin.Service.Passwords.{validate_password, hash_password}
use arc_admin.Service.Departments.{validate_assignment, number_or_null, text_or_null}
use arc_admin.Service.Users.Checks.{
  ensure_actor_can_access, validate_role_grant_scope, protect_last_super_admin, user_of,
  revoke_sessions,
}
use arc_admin.Service.Users.Requests.{
  CreateUserRequest, UpdateUserRequest, nullable_patch, is_user_status, validate_username,
  validate_display_name, trimmed_email, updated_name,
}

abbrev check_roles : Db → ℕ → Option (List ℕ) → Bool → Api (Unit {0})
check_roles pool actor_id none can_grant_super_admin = ok tt
check_roles pool actor_id (some role_ids) can_grant_super_admin =
    validate_role_grant_scope pool (some actor_id) role_ids can_grant_super_admin

abbrev assigned_department : Db → ActorContext → Option ℕ → Bool → Api (Option ℕ)
assigned_department pool actor none can_assign = ok actor.department_id
assigned_department pool actor (some department_id) can_assign = do
  fail_if (not can_assign) (forbidden "缺少查看部门目录的权限")
  validate_assignment pool actor department_id
  ok (some department_id)

abbrev grant_roles : Db → ℕ → Option (List ℕ) → Api Db
grant_roles db id none = ok db
grant_roles db id (some role_ids) = from_db (Users.assign_roles db id role_ids)

-- `salt` is the random salt of the password's hash.
unfoldable pub create :
    External → List ℕ → ActorContext → CreateUserRequest → Bool → Bool → Db → Api (UserRow × Db)
unfolding validate_username validate_display_name
create ext salt actor req can_grant_super_admin can_assign_department pool = do
  fail_if (not (can_create_peer actor)) (forbidden "当前数据范围不允许创建其他用户")
  username ← validate_username req.username
  validate_password req.password
  display_name ← validate_display_name req.display_name
  let status = unwrap_or req.status "active"
  fail_if (not (is_user_status status)) (validation "状态只能为启用、停用或已暂停")
  hash ← hash_password ext salt req.password
  check_roles pool actor.user_id req.role_ids can_grant_super_admin
  department_id ← assigned_department pool actor req.department_id can_assign_department
  created ← from_db (
      Users.create pool (record {
        username = username;
        password_hash = hash;
        display_name = display_name;
        email = req.email;
        status = status;
        organization_id = actor.organization_id;
        department_id = department_id;
      }))
  granted ← grant_roles created.1 created.0.id req.role_ids
  ok (
    created.0,
    record_log granted (some actor.user_id) "user.create" "user" (some created.0.id) (
        ("username", text username)
        ∷ ("status", text status)
        ∷ ("departmentId", number_or_null department_id)
        ∷ ("roleIds", ids (unwrap_or req.role_ids []))
        ∷ []),
  )

-- The new department of an update, with an actor or without.
abbrev pub updated_department : Db → Option ActorContext → ℕ → Option ℕ → Bool → Api (Option ℕ)
updated_department pool actor id none can_assign = ok none
updated_department pool none id (some department_id) can_assign = ok (some department_id)
updated_department pool (some actor) id (some department_id) can_assign = do
  fail_if (not can_assign) (forbidden "缺少查看部门目录的权限")
  fail_if (actor.user_id == id && not (is_some_of actor.department_id department_id))
      (forbidden "不能调整当前登录账号所属部门")
  validate_assignment pool actor department_id
  ok (some department_id)

-- An account that becomes active again must not bring more than its actor may grant.
abbrev pub check_status : Db → Option ℕ → ℕ → Option String → Bool → Api (Unit {0})
check_status pool actor_id id none can_grant_super_admin = ok tt
check_status pool actor_id id (some status) can_grant_super_admin = do
  fail_if (not (is_user_status status)) (validation "状态只能为启用、停用或已暂停")
  fail_if (not (status == "active") && is_some_of actor_id id) (forbidden "不能停用当前登录账号")
  if status == "active"
      then validate_role_grant_scope pool actor_id (Users.role_ids_by_user pool id)
          can_grant_super_admin
      else ok tt

abbrev pub hashed_password : External → List ℕ → Option String → Api (Option String)
hashed_password ext salt none = ok none
hashed_password ext salt (some password) = do
  validate_password password
  hash ← hash_password ext salt password
  ok (some hash)

abbrev pub revokes_sessions : Option String → Bool
revokes_sessions status = is_some_and status λ s. not (s == "active")

abbrev pub write_password : Db → ℕ → Option String → Api Db
write_password db id none = ok db
write_password db id (some hash) =
    let written = Users.update_password db id hash in
    if is_some written.0 then ok written.1 else err (not_found "用户不存在")

unfoldable pub update :
    External
    → List ℕ
    → ℕ
    → ℕ
    → Option ActorContext
    → UpdateUserRequest
    → Bool
    → Bool
    → Db
    → Api (UserRow × Db)
unfolding nullable_patch updated_name trimmed_email
update ext salt now id actor req can_grant_super_admin can_assign_department pool = do
  ensure_actor_can_access pool actor id
  let actor_id = user_of actor
  department_id ← updated_department pool actor id req.department_id can_assign_department
  display_name ← updated_name req.display_name
  check_status pool actor_id id req.status can_grant_super_admin
  password_hash ← hashed_password ext salt req.password
  let patch = nullable_patch req.email
  if revokes_sessions req.status then protect_last_super_admin pool id else ok tt
  with_password ← write_password pool id password_hash
  let profile =
      Users.update_profile with_password id display_name patch.0 (trimmed_email patch.1) req.status
        department_id
  row ← ok_or profile.0 (not_found "用户不存在")
  let revoked =
      if is_some password_hash || revokes_sessions req.status
      then revoke_sessions now profile.1 actor_id id
          (if is_some password_hash then "admin_password_reset" else "account_status_changed")
      else profile.1
  ok (
    row,
    record_log revoked actor_id "user.update" "user" (some id) (
        ("displayNameChanged", flag (is_some req.display_name))
        ∷ ("emailChanged", flag patch.0)
        ∷ ("status", text_or_null req.status)
        ∷ ("departmentId", number_or_null req.department_id)
        ∷ ("passwordReset", flag (is_some req.password))
        ∷ []),
  )
