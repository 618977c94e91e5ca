-- ===== src/Handler/Granted.antt =====
-- What an assignment of roles through the handler (backend/src/handlers/users.rs) has asked for, and
-- what the user then has.
use arc_admin.Prelude.{nat_eq, string_eq, List, String, elem, ok, refl, some, true, ℕ, ◌∙◌, ◌≡◌}
use arc_admin.Db.{Db}
use arc_admin.Access.{ActorContext, has_permission}
use arc_admin.Repo.Users.Grants.{has_grant}
use arc_admin.Repo.Permissions.{permission_codes_by_user}
use arc_admin.Service.Users.Checks.{super_admin_role}
use arc_admin.Service.Users.RoleGrants
use arc_admin.Service.Users.Privileges.{assign_roles-permissions}
use arc_admin.Auth.Authenticate.Permitted.{authenticate-permissions}
use arc_admin.Handler.{Call, commit, status_no_content}
use arc_admin.Handler.Users
use arc_admin.Handler.Users.{grant_super_admin}
use arc_admin.Handler.Authorized.{IsAuthorized, sensitive-done, commit-ok}

-- the permissions that an authorized actor carries
carried :
    (call : Call) (code scope : String) (pool : Db) (actor : ActorContext) (asked : String)
    → IsAuthorized call code scope pool actor
    → has_permission actor asked ≡ true
    → elem asked (permission_codes_by_user pool actor.user_id) ≡ true
unfolding has_permission
carried call code scope pool actor asked authorized h =
    let codes =
      authenticate-permissions call.ext call.secure call.now call.request pool authorized.known in
    rw codes at h

super_admin_role-same :
    (mid pool : Db) → mid.roles ≡ pool.roles → super_admin_role mid ≡ super_admin_role pool
unfolding arc_admin.Repo.Roles.id_by_code
super_admin_role-same mid pool same = rw same refl

-- An assignment that the handler answers with success was asked for by an authenticated actor whose
-- roles have the permission, with a live grant for assignments. The user then has no permission that
-- the actor did not have when the request came, and the super administrator's role only if the actor
-- might grant it.
pub assign_user_roles-IsAuthorized :
    (call : Call) (id : ℕ) (role_ids : List ℕ) (pool : Db) {left : Db}
    → Users.assign_roles call id role_ids pool ≡ (ok status_no_content, left)
    → (actor : ActorContext) × IsAuthorized call "user:roles:write" "users.roles.write" pool actor
      × ((code : String)
          → elem code (permission_codes_by_user left id) ≡ true
          → elem code (permission_codes_by_user pool actor.user_id) ≡ true)
      × ((role_id : ℕ)
          → super_admin_role pool ≡ some role_id
          → has_grant left id role_id ≡ true
          → elem grant_super_admin (permission_codes_by_user pool actor.user_id) ≡ true)
unfolding Users.assign_roles
assign_user_roles-IsAuthorized call id role_ids pool h =
    let service = λ (actor : ActorContext).
      commit status_no_content (
        RoleGrants.assign_roles id (some actor) role_ids
          (has_permission actor grant_super_admin)) in
    let (actor, mid, authorized, done, codes, roles) =
      sensitive-done call "user:roles:write" "users.roles.write" service pool h in
    let may = has_permission actor grant_super_admin in
    let (held, granted) =
      assign_roles-permissions id actor role_ids may mid
        (commit-ok (RoleGrants.assign_roles id (some actor) role_ids may) mid 204 done) in
    (
      actor,
      authorized,
      λ code e. rw (codes actor.user_id) at held code e,
      λ role_id known e.
          carried call "user:roles:write" "users.roles.write" pool actor grant_super_admin
            authorized (granted role_id (super_admin_role-same mid pool roles ∙ known) e),
    )
