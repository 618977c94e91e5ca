-- ===== src/Handler/Roles.antt =====
-- backend/src/handlers/roles.rs, without `list` and `get_permissions`.
use arc_admin.Prelude.{
  nat_eq, string_eq, List, if◌then◌else◌, is_some, is_some_and, length, not, some, ℕ, ◌==◌, ◌||◌,
}
use arc_admin.Db.{RoleRow}
use arc_admin.Access.{ActorContext, has_permission}
use arc_admin.Action.{Action, and_then, check}
use arc_admin.Auth.Authenticate.{require}
use arc_admin.Service.Roles
use arc_admin.Service.Roles.{CreateRoleRequest, UpdateRoleRequest}
use arc_admin.Handler.{
  Call, permitted, step_up, unlocked, confirmed, commit, created, status_no_content,
}

unfoldable get : Call → ℕ → Action RoleRow
get call id = permitted call "role:directory:read" λ actor. check (λ pool. Roles.get pool id)

abbrev assigned : Call → ActorContext → Action (Unit {0})
assigned call actor =
    and_then (check (λ pool. require actor "role:permissions:write"))
      λ _. step_up call actor "roles.permissions.write"

unfoldable create : Call → CreateRoleRequest → Action (ℕ × RoleRow)
create call req = permitted call "role:write" λ actor.
    let needs_step_up = is_some_and req.permission_ids (λ ids. not (length ids == 0)) in
    and_then (if needs_step_up then assigned call actor else unlocked call actor "roles") λ _.
      created (
        Roles.create (some actor.user_id) actor.data_scope req
          (has_permission actor "role:permissions:write"))

unfoldable update : Call → ℕ → UpdateRoleRequest → Action RoleRow
update call id req = permitted call "role:write" λ actor.
    and_then
      (confirmed call actor (is_some req.data_scope || is_some req.is_active) "roles.sensitive"
        "roles")
      λ _. Roles.update (some actor.user_id) actor.data_scope id req

unfoldable delete : Call → ℕ → Action ℕ
delete call id = permitted call "role:write" λ actor.
    and_then (step_up call actor "roles.delete")
      λ _. commit status_no_content (Roles.delete (some actor.user_id) id)

unfoldable put_permissions : Call → ℕ → List ℕ → Action ℕ
put_permissions call id permission_ids = permitted call "role:permissions:write" λ actor.
    and_then (step_up call actor "roles.permissions.write") λ _.
      commit status_no_content (Roles.assign_permissions (some actor.user_id) id permission_ids)
