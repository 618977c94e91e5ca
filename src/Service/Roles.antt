-- ===== src/Service/Roles.antt =====
-- backend/src/services/roles.rs, without `list`. `pool` is the committed database, which a
-- transaction starts from. The permission groups in a response are not modelled: the response is the
-- role's row.
pub mod Privileges
use arc_admin.Prelude.{
  nat_eq, string_eq, Bool, List, Option, String, [], all_chars, byte_len, distinct, elem, fail_if,
  false, first_char, is_ascii_digit, is_ascii_lowercase, is_empty, is_some_and, leb, length, ltb,
  none, not, ok, ok_or, some, trim, true, unwrap_or, updated, ℕ, ◌&&◌, ◌==◌, ◌>>=◌, ◌>>◌, ◌||◌, ◌∷◌,
}
use arc_admin.Access.{DataScope, as_str, from_database, can_grant}
use arc_admin.Error.{Api, validation, forbidden, not_found, conflict, internal, from_db}
use arc_admin.Db.{Db, RoleRow, text, ids, flag, null, Detail}
use arc_admin.Action.{Action, transaction, and_then, check}
use arc_admin.Repo.Roles
use arc_admin.Repo.Roles.{NullableTextUpdate, unchanged, set_to}
use arc_admin.Repo.Permissions
use arc_admin.Repo.AuditLogs.{record_log}
use arc_admin.Service.Users.Requests.{NullablePatch, missing, cleared, given}
use arc_admin.Service.Departments.{text_or_null}
use arc_admin.Service.Users.Checks.{exceeds}

pub record CreateRoleRequest : Type 0 where
  pub code : String
  pub name : String
  pub category : Option String
  pub icon : Option String
  pub color : Option String
  pub description : Option String
  pub data_scope : Option String
  pub permission_ids : Option (List ℕ)

pub record UpdateRoleRequest : Type 0 where
  pub name : Option String
  pub category : Option String
  pub icon : NullablePatch
  pub color : Option String
  pub description : NullablePatch
  pub data_scope : Option String
  pub is_active : Option Bool

abbrev role_colors : List String
role_colors = "primary" ∷ "warning" ∷ "success" ∷ "danger" ∷ "neutral" ∷ []

abbrev data_scopes : List String
data_scopes = "all" ∷ "organization" ∷ "department_and_children" ∷ "department" ∷ "self" ∷ []

abbrev nullable_text_update : NullablePatch → NullableTextUpdate
nullable_text_update missing = unchanged
nullable_text_update cleared = set_to none
nullable_text_update (given value) = set_to (some value)

unfoldable pub get : Db → ℕ → Api RoleRow
get pool id = ok_or (Roles.find_by_id pool id) (not_found "角色不存在")

abbrev is_code_char : ℕ → Bool
is_code_char c = is_ascii_lowercase c || is_ascii_digit c || c == b'_'

unfoldable pub is_valid_code : String → Bool
is_valid_code code =
    leb 3 (byte_len code)
    && leb (byte_len code) 64
    && first_char is_ascii_lowercase code
    && all_chars is_code_char code

unfoldable pub validate_data_scope : String → Api DataScope
unfolding from_database
validate_data_scope data_scope = do
  fail_if (not (elem data_scope data_scopes)) (validation "数据范围只能是全部、组织、部门及下级、部门或仅本人")
  ok_or (from_database data_scope) (internal "无效的数据范围配置")

unfoldable pub validate_data_scope_grant : DataScope → DataScope → Api (Unit {0})
unfolding can_grant
validate_data_scope_grant actor_data_scope requested_scope =
    fail_if (not (can_grant actor_data_scope requested_scope)) (forbidden "不能授予超出自身范围的数据权限")

-- The codes of the permissions, as a set.
unfoldable pub validate_permission_dependencies : Db → List ℕ → Api (List String)
validate_permission_dependencies db permission_ids = do
  fail_if (not (length (distinct permission_ids) == length permission_ids))
      (validation "权限列表不能包含重复项")
  let codes = distinct (Permissions.codes_by_ids db permission_ids)
  fail_if (not (length codes == length (distinct permission_ids))) (validation "权限列表中包含不存在的权限")
  fail_if
      (elem "role:permissions:write" codes
        && (not (elem "role:directory:read" codes) || not (elem "permission:directory:read" codes)))
      (validation "分配角色权限管理能力时，必须同时授予角色读取和权限目录读取权限")
  fail_if
      (elem "organization:department:write" codes
        && not (elem "organization:department:read" codes))
      (validation "分配部门管理能力时，必须同时授予部门目录读取权限")
  ok codes

unfoldable pub validate_permission_grant_scope : Db → Option ℕ → List String → Api (Unit {0})
validate_permission_grant_scope pool none requested = ok tt
validate_permission_grant_scope pool (some actor_user_id) requested =
    fail_if (exceeds requested (Permissions.permission_codes_by_user pool actor_user_id))
      (forbidden "不能授予操作者自身未拥有的权限")

-- The permissions of a new role; `db` is the transaction's database, with the role.
abbrev create_permissions : Db → Db → Option ℕ → ℕ → Option (List ℕ) → Bool → Api Db
create_permissions pool db actor_user_id id none can_assign = ok db
create_permissions pool db actor_user_id id (some permission_ids) can_assign = do
  fail_if (not (length permission_ids == 0) && not can_assign) (forbidden "缺少分配角色权限的权限")
  codes ← validate_permission_dependencies db permission_ids
  validate_permission_grant_scope pool actor_user_id codes
  from_db (Roles.assign_permissions db id permission_ids)

unfoldable pub create_transaction :
    Option ℕ → DataScope → CreateRoleRequest → Bool → Db → Api (ℕ × Db)
unfolding is_valid_code validate_data_scope validate_data_scope_grant
    validate_permission_dependencies validate_permission_grant_scope as_str
create_transaction actor_user_id actor_data_scope req can_assign_permissions pool = do
  let code = trim req.code
  fail_if (not (is_valid_code code)) (validation "角色编码需为 3-64 位小写字母、数字或下划线，且以字母开头")
  fail_if (is_empty (trim req.name)) (validation "角色名称不能为空")
  let color = unwrap_or req.color "neutral"
  fail_if (not (elem color role_colors))
      (validation "颜色只能是 primary、warning、success、danger 或 neutral")
  data_scope ← validate_data_scope (unwrap_or req.data_scope "self")
  validate_data_scope_grant actor_data_scope data_scope
  created ← from_db (
      Roles.create pool (record {
        code = code;
        name = trim req.name;
        category = unwrap_or req.category "general";
        icon = req.icon;
        color = some color;
        description = req.description;
        data_scope = as_str data_scope;
      }))
  granted ←
      create_permissions pool created.1 actor_user_id created.0 req.permission_ids
        can_assign_permissions
  ok (
    created.0,
    record_log granted actor_user_id "role.create" "role" (some created.0) (
        ("code", text code)
        ∷ ("name", text (trim req.name))
        ∷ ("dataScope", text (as_str data_scope))
        ∷ ("permissionIds", ids (unwrap_or req.permission_ids []))
        ∷ []),
  )

unfoldable pub create : Option ℕ → DataScope → CreateRoleRequest → Bool → Action RoleRow
unfolding create_transaction get
create actor_user_id actor_data_scope req can_assign_permissions =
    and_then
      (transaction (create_transaction actor_user_id actor_data_scope req can_assign_permissions))
      λ id. check (λ db. get db id)

abbrev trimmed : Option String → Option String
trimmed none = none
trimmed (some value) = some (trim value)

abbrev check_active : Db → Option ℕ → ℕ → Option Bool → Api (Unit {0})
check_active pool actor_user_id id none = ok tt
check_active pool actor_user_id id (some false) = ok tt
check_active pool actor_user_id id (some true) =
    validate_permission_grant_scope pool actor_user_id
      (Permissions.codes_by_role_ids pool (id ∷ []))

abbrev check_inactive : Db → ℕ → Option Bool → Api (Unit {0})
check_inactive pool id none = ok tt
check_inactive pool id (some true) = ok tt
check_inactive pool id (some false) = do
  role ← get pool id
  fail_if (role.code == "super_admin") (forbidden "内置超级管理员角色不可停用")

abbrev check_data_scope : Db → DataScope → ℕ → Option String → Api (Unit {0})
check_data_scope pool actor_data_scope id none = ok tt
check_data_scope pool actor_data_scope id (some data_scope) = do
  requested_scope ← validate_data_scope data_scope
  validate_data_scope_grant actor_data_scope requested_scope
  role ← get pool id
  fail_if (role.code == "super_admin" && not (data_scope == "all"))
      (forbidden "内置超级管理员角色的数据范围必须为全部数据")

abbrev flag_or_null : Option Bool → Detail
flag_or_null none = null
flag_or_null (some b) = flag b

unfoldable pub update_transaction :
    Option ℕ → DataScope → ℕ → UpdateRoleRequest → Db → Api ((Unit {0}) × Db)
unfolding validate_data_scope validate_data_scope_grant validate_permission_grant_scope get
update_transaction actor_user_id actor_data_scope id req pool = do
  fail_if (is_some_and (trimmed req.name) is_empty) (validation "角色名称不能为空")
  fail_if (is_some_and (trimmed req.category) is_empty) (validation "角色分类不能为空")
  check_inactive pool id req.is_active
  check_data_scope pool actor_data_scope id req.data_scope
  check_active pool actor_user_id id req.is_active
  fail_if (is_some_and req.color (λ color. not (elem color role_colors)))
      (validation "颜色只能是 primary、warning、success、danger 或 neutral")
  let updated = Roles.update pool id (record {
    name = trimmed req.name;
    category = trimmed req.category;
    icon = nullable_text_update req.icon;
    color = req.color;
    description = nullable_text_update req.description;
    data_scope = req.data_scope;
    is_active = req.is_active;
  })
  fail_if (not updated.0) (not_found "角色不存在")
  ok (
    tt,
    record_log updated.1 actor_user_id "role.update" "role" (some id) (
        ("name", text_or_null req.name)
        ∷ ("category", text_or_null req.category)
        ∷ ("color", text_or_null req.color)
        ∷ ("dataScope", text_or_null req.data_scope)
        ∷ ("isActive", flag_or_null req.is_active)
        ∷ []),
  )

unfoldable pub update : Option ℕ → DataScope → ℕ → UpdateRoleRequest → Action RoleRow
unfolding update_transaction get
update actor_user_id actor_data_scope id req =
    and_then (transaction (update_transaction actor_user_id actor_data_scope id req))
      λ _. check (λ db. get db id)

unfoldable pub delete : Option ℕ → ℕ → Db → Api Db
unfolding get
delete actor_user_id id pool = do
  row ← get pool id
  fail_if (row.code == "super_admin") (forbidden "内置超级管理员角色不可删除")
  fail_if (ltb 0 (Roles.members pool id)) (conflict "角色仍有成员，请先迁移用户后再删除")
  let deleted = Roles.delete_if_unassigned pool id
  fail_if (not deleted.0) (conflict "角色仍有成员，请先迁移用户后再删除")
  ok (record_log deleted.1 actor_user_id "role.delete" "role" (some id) [])

unfoldable pub assign_permissions : Option ℕ → ℕ → List ℕ → Db → Api Db
unfolding get validate_permission_dependencies validate_permission_grant_scope
assign_permissions actor_user_id id permission_ids pool = do
  role ← get pool id
  fail_if (role.code == "super_admin") (forbidden "内置超级管理员角色的权限不可修改")
  codes ← validate_permission_dependencies pool permission_ids
  validate_permission_grant_scope pool actor_user_id codes
  assigned ← from_db (Roles.assign_permissions pool id permission_ids)
  ok (
      record_log assigned actor_user_id "role.permissions.update" "role" (some id) (
        ("previousPermissionIds", ids (Roles.permission_ids_by_role pool id))
        ∷ ("permissionIds", ids permission_ids)
        ∷ []))
