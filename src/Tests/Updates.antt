-- ===== src/Tests/Updates.antt =====
-- An example of an update: the suspended editor becomes active again.
use arc_admin.Prelude.{
  nat_eq, string_eq, String, [], distinct, elem, err, exists, fetch_optional, insert_sorted, none,
  ok, order_by_id, refl, select, some, true, update_where, ℕ, ◌∷◌, ◌≡◌,
}
use arc_admin.Access.{as_str}
use arc_admin.Error.{Api}
use arc_admin.Db.{Db, UserRow}
use arc_admin.Repo.Users
use arc_admin.Repo.Roles
use arc_admin.Repo.Departments
use arc_admin.Repo.Permissions
use arc_admin.Repo.Permissions.{permission_codes_by_user}
use arc_admin.Repo.Users.Grants.{has_grant}
use arc_admin.Service.Users.Checks.{
  ensure_actor_can_access, validate_role_grant_scope, super_admin_role, exceeds,
}
use arc_admin.Service.Users.Requests.{UpdateUserRequest, missing}
use arc_admin.Service.Users.Profile.{update}
use arc_admin.Service.Users.Reactivation.{update-permissions}
use arc_admin.Tests.Externals.{toy}
use arc_admin.Tests.Accounts.{accounts, account, root}

abbrev editor : UserRow
editor = account 2 "editor"

abbrev suspended : Db
suspended = record accounts {
  users = account 1 "root" ∷ record editor { status = "suspended" } ∷ [];
}

abbrev reactivate : UpdateUserRequest
reactivate = record {
  display_name = none;
  email = missing;
  status = some "active";
  department_id = none;
  password = none;
}

abbrev left_by : Api (UserRow × Db) → Db
left_by (ok (row, db)) = db
left_by (err e) = suspended

abbrev after_update : Db
after_update = left_by (update toy [] 9 2 (some root) reactivate true true suspended)

reactivated :
    update toy [] 9 2 (some root) reactivate true true suspended ≡ ok (editor, after_update)
unfolding update ensure_actor_can_access Users.find_by_id_for_actor fetch_optional
    Users.in_data_scope as_str Departments.visible_departments validate_role_grant_scope
    Users.role_ids_by_user select order_by_id insert_sorted distinct elem Roles.active_ids_by_ids
    Roles.id_by_code exceeds Permissions.codes_by_role_ids permission_codes_by_user
    Permissions.codes_of_roles Permissions.grants_to Users.is_active exists Users.update_profile
    Users.update_present update_where Users.is_present Users.find_by_id
reactivated = refl

update-permissions_example :
    ((code : String)
      → elem code (permission_codes_by_user after_update 2) ≡ true
      → elem code (permission_codes_by_user suspended 1) ≡ true)
    × ((role_id : ℕ)
        → super_admin_role suspended ≡ some role_id
        → has_grant after_update 2 role_id ≡ true
        → true ≡ true)
update-permissions_example =
    update-permissions toy [] 9 2 root reactivate true true suspended reactivated refl
