-- ===== src/Repo/Permissions.antt =====
-- backend/src/repositories/permissions.rs: the permission codes that the services compare. The
-- services read them as sets, so the ORDER BY of the codes is left out; the dashboard's counts and
-- the directory lists are not modelled.
pub mod Codes
use arc_admin.Prelude.{
  nat_eq, string_eq, Bool, List, String, distinct, elem, exists, map, select, ℕ, ◌&&◌, ◌==◌,
}
use arc_admin.Db.{Db, UserRow, RoleRow, UserRoleRow, PermissionRow, RolePermissionRow}
use arc_admin.Repo.Users.{is_active}

unfoldable pub codes_by_ids : Db → List ℕ → List String
codes_by_ids db permission_ids =
    map (λ (p : PermissionRow). p.code)
      (select (λ (p : PermissionRow). elem p.id permission_ids) db.permissions)

-- permissions JOIN role_permissions ON the permission's id, for one test of the role.
unfoldable pub codes_of_roles : Db → (ℕ → Bool) → List String
codes_of_roles db of_role = distinct (
    map (λ (p : PermissionRow). p.code)
      (select
        (λ (p : PermissionRow).
          exists (λ (rp : RolePermissionRow). rp.permission_id == p.id && of_role rp.role_id)
            db.role_permissions)
        db.permissions))

-- Of the roles, active or not.
unfoldable pub codes_by_role_ids : Db → List ℕ → List String
unfolding codes_of_roles
codes_by_role_ids db role_ids = codes_of_roles db (λ r. elem r role_ids)

-- The user is active and holds the role, and the role is active.
unfoldable pub grants_to : Db → ℕ → ℕ → Bool
unfolding is_active
grants_to db user_id role_id =
    exists (λ (r : RoleRow). r.id == role_id && r.is_active) db.roles
    && exists (λ (ur : UserRoleRow). ur.role_id == role_id && ur.user_id == user_id) db.user_roles
    && exists (λ (u : UserRow). u.id == user_id && is_active u) db.users

unfoldable pub permission_codes_by_user : Db → ℕ → List String
unfolding codes_of_roles
permission_codes_by_user db user_id = codes_of_roles db (grants_to db user_id)
