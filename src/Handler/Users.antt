-- ===== src/Handler/Users.antt =====
-- backend/src/handlers/users.rs, without `list` and `get`.
use arc_admin.Prelude.{
  nat_eq, string_eq, Bool, List, String, if◌then◌else◌, is_some, is_some_and, is_some_of, length,
  not, ok, some, ℕ, ◌==◌, ◌>>◌, ◌||◌,
}
use arc_admin.Error.{Api}
use arc_admin.Db.{UserRow}
use arc_admin.Access.{ActorContext, has_permission}
use arc_admin.Action.{Action, transaction, and_then, check}
use arc_admin.Auth.Authenticate.{require}
use arc_admin.Service.Users.Requests.{CreateUserRequest, UpdateUserRequest}
use arc_admin.Service.Users.Profile
use arc_admin.Service.Users.Deletion
use arc_admin.Service.Users.RoleGrants
use arc_admin.Handler.{Call, permitted, step_up, confirmed, commit, created, status_no_content}

abbrev department_read : String
department_read = "organization:department:read"

abbrev pub grant_super_admin : String
grant_super_admin = "user:super_admin:grant"

-- `if b { auth.require(code)?; }`
abbrev require_if : Bool → ActorContext → String → Api (Unit {0})
require_if b actor code = if b then require actor code else ok tt

abbrev has_roles : CreateUserRequest → Bool
has_roles req = is_some_and req.role_ids (λ role_ids. not (length role_ids == 0))

abbrev is_not_active : CreateUserRequest → Bool
is_not_active req = is_some_and req.status (λ status. not (status == "active"))

-- What `create` asks of the actor for the fields of the request.
unfoldable create_permissions : ActorContext → CreateUserRequest → Api (Unit {0})
create_permissions actor req =
    require_if (has_roles req) actor "user:roles:write"
    >> (require_if (is_not_active req) actor "user:admin:deactivate"
        >> require_if (is_some req.department_id) actor department_read)

unfoldable create_needs_step_up : ActorContext → CreateUserRequest → Bool
create_needs_step_up actor req =
    has_roles req
    || is_not_active req
    || is_some_and req.department_id (λ id. not (is_some_of actor.department_id id))

unfoldable pub create : Call → CreateUserRequest → Action (ℕ × UserRow)
unfolding create_permissions create_needs_step_up
create call req = permitted call "user:write" λ actor.
    and_then (check (λ pool. create_permissions actor req)) λ _.
      and_then (confirmed call actor (create_needs_step_up actor req) "users.sensitive" "users")
        λ _. created (
          transaction (
            Profile.create call.ext call.salt actor req (has_permission actor grant_super_admin)
              (has_permission actor department_read)))

-- What `update` asks of the actor for the fields of the request.
unfoldable update_permissions : ActorContext → UpdateUserRequest → Api (Unit {0})
update_permissions actor req =
    require_if (is_some req.password) actor "user:admin:reset_password"
    >> (require_if (is_some req.status) actor "user:admin:deactivate"
        >> require_if (is_some req.department_id) actor department_read)

unfoldable pub update : Call → ℕ → UpdateUserRequest → Action UserRow
unfolding update_permissions
update call id req = permitted call "user:write" λ actor.
    and_then (check (λ pool. update_permissions actor req)) λ _.
      and_then
        (confirmed call actor
          (is_some req.password || is_some req.status || is_some req.department_id)
          "users.sensitive" "users")
        λ _. transaction (
          Profile.update call.ext call.salt call.now id (some actor) req
            (has_permission actor grant_super_admin) (has_permission actor department_read))

unfoldable pub delete : Call → ℕ → Action ℕ
delete call id = permitted call "user:admin:deactivate" λ actor.
    and_then (step_up call actor "users.delete")
      λ _. commit status_no_content (Deletion.delete call.now id (some actor))

unfoldable batch_delete : Call → List ℕ → Action ℕ
batch_delete call user_ids = permitted call "user:admin:deactivate" λ actor.
    and_then (step_up call actor "users.delete")
      λ _. commit status_no_content (Deletion.delete_many call.now (some actor) user_ids)

unfoldable pub assign_roles : Call → ℕ → List ℕ → Action ℕ
assign_roles call id role_ids = permitted call "user:roles:write" λ actor.
    and_then (step_up call actor "users.roles.write") λ _.
      commit status_no_content
        (RoleGrants.assign_roles id (some actor) role_ids (has_permission actor grant_super_admin))

unfoldable batch_assign_roles : Call → List ℕ → List ℕ → Action ℕ
batch_assign_roles call user_ids role_ids = permitted call "user:roles:write" λ actor.
    and_then (step_up call actor "users.roles.write") λ _. commit status_no_content (
      RoleGrants.assign_roles_many (some actor) user_ids role_ids
        (has_permission actor grant_super_admin))
