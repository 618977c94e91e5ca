-- ===== src/Tests/Roles.antt =====
-- An example of the roles' service: root gives the editors another permission.
use arc_admin.Prelude.{
  nat_eq, string_eq, String, [], delete_where, distinct, elem, exists, false, fetch_optional, ok,
  refl, select, some, true, ◌==◌, ◌∷◌, ◌≡◌,
}
use arc_admin.Db.{Db, RoleRow}
use arc_admin.Repo.Roles
use arc_admin.Repo.Users
use arc_admin.Repo.Permissions
use arc_admin.Repo.Permissions.{codes_by_role_ids, permission_codes_by_user}
use arc_admin.Service.Users.Checks.{exceeds}
use arc_admin.Service.Roles.{
  assign_permissions, get, validate_permission_dependencies, validate_permission_grant_scope,
}
use arc_admin.Service.Roles.Privileges.{assign_permissions-actor}
use arc_admin.Tests.Accounts.{accounts, left}

abbrev widened : Db
widened = left (assign_permissions (some 1) 2 (2 ∷ []) accounts)

editors_widened : assign_permissions (some 1) 2 (2 ∷ []) accounts ≡ ok widened
unfolding assign_permissions get Roles.find_by_id fetch_optional validate_permission_dependencies
    distinct elem Permissions.codes_by_ids select validate_permission_grant_scope exceeds exists
    permission_codes_by_user Permissions.codes_of_roles Permissions.grants_to Users.is_active
    Roles.assign_permissions Roles.insert_permissions Roles.insert_permission delete_where
editors_widened = refl

assign_permissions-actor_example :
    ((role : RoleRow) × (Roles.find_by_id accounts 2 ≡ some role)
      × ((role.code == "super_admin") ≡ false))
    × ((code : String)
        → elem code (codes_by_role_ids widened (2 ∷ [])) ≡ true
        → elem code (permission_codes_by_user accounts 1) ≡ true)
assign_permissions-actor_example = assign_permissions-actor 1 2 (2 ∷ []) accounts editors_widened
