-- ===== src/Service/Departments.antt =====
-- backend/src/services/departments.rs.
use arc_admin.Prelude.{
  nat_eq, string_eq, Bool, Option, String, [], all_chars, byte_len, err, fail_if, false, first_char,
  if◌then◌else◌, is_ascii_digit, is_ascii_lowercase, is_empty, is_none, is_some_of, leb, ltb, none,
  not, ok, ok_or, some, trim, true, unwrap_or, updated, ℕ, ◌&&◌, ◌==◌, ◌>>=◌, ◌>>◌, ◌||◌, ◌∷◌,
}
use arc_admin.Access.{ActorContext, DataScope, department, self_only}
use arc_admin.Error.{Api, forbidden, validation, conflict, not_found, from_db}
use arc_admin.Db.{Db, Detail, text, number, null}
use arc_admin.Action.{Action, transaction, and_then, check}
use arc_admin.Repo.Departments
use arc_admin.Repo.Departments.{DepartmentView, NewDepartment, DepartmentUpdate}
use arc_admin.Repo.AuditLogs.{record_log}

pub record CreateDepartmentRequest : Type 0 where
  pub parent_id : ℕ
  pub code : String
  pub name : String
  pub status : Option String

pub record UpdateDepartmentRequest : Type 0 where
  pub parent_id : Option ℕ
  pub code : Option String
  pub name : Option String
  pub status : Option String

unfoldable pub get : Db → ActorContext → ℕ → Api DepartmentView
get pool actor id = ok_or (Departments.find_by_id pool actor id) (not_found "部门不存在或超出数据范围")

abbrev is_code_char : ℕ → Bool
is_code_char c = is_ascii_lowercase c || is_ascii_digit c || c == b'_' || c == b'-'

unfoldable pub validate_code : String → Api String
validate_code value =
    let code = trim value in
    let size = byte_len code in
    if leb 2 size
      && leb size 64
      && first_char is_ascii_lowercase code
      && all_chars is_code_char code
    then ok code
    else err (validation "部门编码需为 2-64 位小写字母、数字、下划线或连字符，且以字母开头")

unfoldable pub validate_name : String → Api String
validate_name value =
    let name = trim value in
    if is_empty name || ltb 128 (byte_len name)
    then err (validation "部门名称长度需在 1-128 个字符之间")
    else ok name

unfoldable pub validate_status : String → Api String
validate_status value =
    if value == "active" || value == "inactive" then ok value else err (validation "部门状态只能为启用或停用")

unfoldable pub validate_assignment : Db → ActorContext → ℕ → Api (Unit {0})
validate_assignment pool actor department_id = do
  department_row ←
      ok_or (Departments.find_by_id pool actor department_id) (validation "目标部门不存在或超出数据范围")
  fail_if (not (department_row.status == "active")) (validation "不能将用户分配到已停用部门")

unfoldable pub validate_parent : Db → ActorContext → ℕ → Option ℕ → Api (Unit {0})
validate_parent pool actor parent_id target_id = do
  fail_if (is_some_of target_id parent_id) (validation "部门不能作为自己的上级部门")
  parent ← ok_or (Departments.find_by_id pool actor parent_id) (validation "上级部门不存在或超出数据范围")
  fail_if (not (parent.status == "active")) (validation "不能选择已停用部门作为上级部门")

unfoldable pub ensure_code_available : Db → ℕ → String → Option ℕ → Api (Unit {0})
ensure_code_available pool org code exclude_id =
    fail_if (Departments.code_exists pool org code exclude_id) (conflict "当前组织中已存在相同部门编码")

abbrev cannot_create : DataScope → Bool
cannot_create department = true
cannot_create self_only = true
cannot_create _ = false

create_transaction : ActorContext → CreateDepartmentRequest → Db → Api (ℕ × Db)
unfolding validate_code validate_name validate_status validate_parent ensure_code_available
create_transaction actor req pool = do
  fail_if (cannot_create actor.data_scope) (forbidden "当前数据范围不允许创建下级部门")
  code ← validate_code req.code
  name ← validate_name req.name
  status ← validate_status (unwrap_or req.status "active")
  validate_parent pool actor req.parent_id none
  ensure_code_available pool actor.organization_id code none
  created ← from_db (
      Departments.create pool actor.organization_id
        (record { parent_id = req.parent_id; code = code; name = name; status = status }))
  ok (
    created.0,
    record_log created.1 (some actor.user_id) "department.create" "department" (some created.0) (
        ("organizationId", number actor.organization_id)
        ∷ ("parentId", number req.parent_id)
        ∷ ("code", text code)
        ∷ ("name", text name)
        ∷ ("status", text status)
        ∷ []),
  )

-- The response is read back after the commit.
unfoldable pub create : ActorContext → CreateDepartmentRequest → Action DepartmentView
unfolding create_transaction get
create actor req =
    and_then (transaction (create_transaction actor req)) λ id. check (λ db. get db actor id)

abbrev pub number_or_null : Option ℕ → Detail
number_or_null none = null
number_or_null (some n) = number n

abbrev pub text_or_null : Option String → Detail
text_or_null none = null
text_or_null (some t) = text t

-- `value.map(f).transpose()`
abbrev transposed : (String → Api String) → Option String → Api (Option String)
transposed f none = ok none
transposed f (some v) = f v >>= λ w. ok (some w)

-- What is checked of a new parent that differs from the old one.
unfoldable pub check_new_parent : Db → ActorContext → ℕ → Option ℕ → Option ℕ → Api (Unit {0})
unfolding validate_parent
check_new_parent pool actor id current none = ok tt
check_new_parent pool actor id current (some parent_id) =
    if is_some_of current parent_id then ok tt else do
      validate_parent pool actor parent_id (some id)
      fail_if (Departments.parent_would_create_cycle pool actor.organization_id id parent_id)
          (validation "上级部门不能是当前部门或其下级部门")

abbrev check_new_code : Db → ActorContext → ℕ → Option String → Api (Unit {0})
check_new_code pool actor id none = ok tt
check_new_code pool actor id (some code) =
    ensure_code_available pool actor.organization_id code (some id)

unfoldable pub update_transaction :
    ActorContext → ℕ → UpdateDepartmentRequest → Db → Api ((Unit {0}) × Db)
unfolding validate_code validate_name validate_status check_new_parent ensure_code_available
update_transaction actor id req pool = do
  fail_if (is_none req.parent_id && is_none req.code && is_none req.name && is_none req.status)
      (validation "至少需要提供一个待更新字段")
  current ← ok_or (Departments.find_by_id pool actor id) (not_found "部门不存在或超出数据范围")
  fail_if (is_none current.parent_id) (forbidden "根部门不可修改")
  check_new_parent pool actor id current.parent_id req.parent_id
  code ← transposed validate_code req.code
  check_new_code pool actor id code
  name ← transposed validate_name req.name
  status ← transposed validate_status req.status
  updated ← from_db (
      Departments.update pool actor.organization_id id
        (record { parent_id = req.parent_id; code = code; name = name; status = status }))
  fail_if (not updated.0) (not_found "部门不存在")
  ok (
    tt,
    record_log updated.1 (some actor.user_id) "department.update" "department" (some id) (
        ("previousParentId", number_or_null current.parent_id)
        ∷ ("parentId", number_or_null req.parent_id)
        ∷ ("code", text_or_null code)
        ∷ ("name", text_or_null name)
        ∷ ("status", text_or_null status)
        ∷ []),
  )

unfoldable pub update : ActorContext → ℕ → UpdateDepartmentRequest → Action DepartmentView
unfolding update_transaction get
update actor id req =
    and_then (transaction (update_transaction actor id req)) λ _. check (λ db. get db actor id)

unfoldable pub delete_transaction : ActorContext → ℕ → Db → Api ((Unit {0}) × Db)
delete_transaction actor id pool = do
  current ← ok_or (Departments.find_by_id pool actor id) (not_found "部门不存在或超出数据范围")
  fail_if (is_none current.parent_id) (forbidden "根部门不可删除")
  fail_if (ltb 0 current.child_count) (conflict "部门仍有下级部门，请先移动或删除下级部门")
  fail_if (ltb 0 current.member_count) (conflict "部门仍有成员，请先将成员调至其他部门")
  let deleted = Departments.delete_if_empty pool actor.organization_id id
  fail_if (not deleted.0) (conflict "部门已被占用，请刷新后重试")
  ok (
    tt,
    record_log deleted.1 (some actor.user_id) "department.delete" "department" (some id)
        (("code", text current.code) ∷ ("name", text current.name) ∷ []),
  )

unfoldable pub delete : ActorContext → ℕ → Action (Unit {0})
unfolding delete_transaction
delete actor id = transaction (delete_transaction actor id)
