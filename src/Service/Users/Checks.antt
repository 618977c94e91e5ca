-- ===== src/Service/Users/Checks.antt =====
-- The checks that the calls of backend/src/services/users.rs share.
use arc_admin.Prelude.{
  nat_eq, string_eq, Bool, List, Option, String, [], distinct, elem, exists, fail_if, false, leb,
  length, none, not, ok, ok_or, some, ℕ, ◌&&◌, ◌==◌, ◌>>=◌, ◌>>◌, ◌∷◌,
}
use arc_admin.Access.{ActorContext}
use arc_admin.Error.{Api, forbidden, validation, not_found}
use arc_admin.Db.{Db, UserRow}
use arc_admin.Repo.Users
use arc_admin.Repo.Roles
use arc_admin.Repo.Permissions
use arc_admin.Repo.Sessions
use arc_admin.Service.Passwords.{record_session_revocation}

abbrev found : Db → Option ActorContext → ℕ → Option UserRow
found pool none id = Users.find_by_id pool id
found pool (some actor) id = Users.find_by_id_for_actor pool actor id

unfoldable pub ensure_actor_can_access : Db → Option ActorContext → ℕ → Api (Unit {0})
ensure_actor_can_access pool actor user_id = do
  row ← ok_or (found pool actor user_id) (not_found "用户不存在")
  ok tt

unfoldable pub validate_batch_user_ids : List ℕ → ℕ → Api (Unit {0})
validate_batch_user_ids user_ids actor_user_id = do
  fail_if (length user_ids == 0) (validation "至少需要选择一个用户")
  fail_if (not (length (distinct user_ids) == length user_ids)) (validation "用户列表不能包含重复项")
  fail_if (elem actor_user_id user_ids) (forbidden "不能批量操作当前登录账号")

abbrev pub super_admin_role : Db → Option ℕ
super_admin_role pool = Roles.id_by_code pool "super_admin"

abbrev requests : Option ℕ → List ℕ → Bool
requests none role_ids = false
requests (some id) role_ids = elem id role_ids

-- Some requested code is not among the owned ones.
unfoldable pub exceeds : List String → List String → Bool
exceeds requested owned = exists (λ code. not (elem code owned)) requested

abbrev check_permissions : Db → Option ℕ → List ℕ → Api (Unit {0})
check_permissions pool none role_ids = ok tt
check_permissions pool (some actor_user_id) role_ids =
    fail_if
      (exceeds (Permissions.codes_by_role_ids pool role_ids)
        (Permissions.permission_codes_by_user pool actor_user_id))
      (forbidden "不能分配包含操作者自身未拥有权限的角色")

unfoldable pub validate_role_grant_scope : Db → Option ℕ → List ℕ → Bool → Api (Unit {0})
validate_role_grant_scope pool actor_user_id role_ids can_grant_super_admin = do
  fail_if (not (length (distinct role_ids) == length role_ids)) (validation "角色列表不能包含重复项")
  fail_if (not (length (Roles.active_ids_by_ids pool role_ids) == length (distinct role_ids)))
      (validation "角色列表中包含不存在或已停用的角色")
  fail_if (not can_grant_super_admin && requests (super_admin_role pool) role_ids)
      (forbidden "缺少授予超级管理员角色的权限")
  check_permissions pool actor_user_id role_ids

unfoldable pub protect_last_super_admin : Db → ℕ → Api (Unit {0})
protect_last_super_admin db user_id =
    let state = Users.super_admin_guard_state db user_id in
    fail_if (state.0 && leb state.1 1) (forbidden "不能停用、删除或移除最后一个处于启用状态的超级管理员")

abbrev pub user_of : Option ActorContext → Option ℕ
user_of none = none
user_of (some actor) = some actor.user_id

-- Revokes every session of the user, and logs it where there were any.
abbrev pub revoke_sessions : ℕ → Db → Option ℕ → ℕ → String → Db
revoke_sessions now db actor_id id reason =
    let revoked = Sessions.revoke_all_for_user now db id in
    record_session_revocation revoked.1 actor_id id reason revoked.0

-- `for &user_id in &req.user_ids { … }` of the checks
unfoldable pub ensure_all : Db → ActorContext → List ℕ → Api (Unit {0})
ensure_all pool actor [] = ok tt
ensure_all pool actor (id ∷ rest) = do
  ensure_actor_can_access pool (some actor) id
  ensure_all pool actor rest
