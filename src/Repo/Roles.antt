-- ===== src/Repo/Roles.antt =====
-- backend/src/repositories/roles.rs. The lists for display (`list_all`, the permission groups) are
-- not modelled.
pub mod Permits
use arc_admin.Prelude.{
  nat_eq, string_eq, Bool, List, Option, String, [], count_where, delete_where, elem, err, exists,
  fail_if, false, fetch_optional, if◌then◌else◌, is_none, ltb, map, none, not, ok, order_by_id,
  select, some, suc, true, unwrap_or, update_where, ℕ, ◌&&◌, ◌++◌, ◌==◌, ◌>>=◌, ◌>>◌, ◌∷◌,
}
use arc_admin.Error.{Sql, unique_violation, foreign_key_violation}
use arc_admin.Db.{Db, UserRow, RoleRow, UserRoleRow, PermissionRow, RolePermissionRow}

pub record NewRole : Type 0 where
  pub code : String
  pub name : String
  pub category : String
  pub icon : Option String
  pub color : Option String
  pub description : Option String
  pub data_scope : String

pub data NullableTextUpdate : Type 0 where
  unchanged : NullableTextUpdate
  set_to : Option String → NullableTextUpdate

unfoldable pub is_set : NullableTextUpdate → Bool
is_set unchanged = false
is_set (set_to v) = true

unfoldable pub value : NullableTextUpdate → Option String
value unchanged = none
value (set_to v) = v

pub record RoleUpdate : Type 0 where
  pub name : Option String
  pub category : Option String
  pub icon : NullableTextUpdate
  pub color : Option String
  pub description : NullableTextUpdate
  pub data_scope : Option String
  pub is_active : Option Bool

unfoldable pub find_by_id : Db → ℕ → Option RoleRow
find_by_id db id = fetch_optional (λ (r : RoleRow). r.id == id) db.roles

-- user_roles JOIN users, of the users that are not deleted.
unfoldable pub has_member : Db → ℕ → UserRoleRow → Bool
has_member db role_id ur =
    ur.role_id == role_id
    && exists (λ (u : UserRow). u.id == ur.user_id && is_none u.deleted_at) db.users

-- The column `members` of ROLE_SELECT.
unfoldable pub members : Db → ℕ → ℕ
unfolding has_member
members db role_id = count_where (has_member db role_id) db.user_roles

unfoldable pub create : Db → NewRole → Sql (ℕ × Db)
create db role =
    if exists (λ (r : RoleRow). r.code == role.code) db.roles
    then err unique_violation
    else ok (
      db.next_role,
      record db {
        roles =
            db.roles
            ++ record {
              id = db.next_role;
              code = role.code;
              name = role.name;
              category = role.category;
              icon = role.icon;
              color = unwrap_or role.color "neutral";
              description = role.description;
              data_scope = role.data_scope;
              is_active = true;
            }
              ∷ [];
        next_role = suc db.next_role;
      },
    )

abbrev role_id_of : Option RoleRow → Option ℕ
role_id_of none = none
role_id_of (some r) = some r.id

unfoldable pub id_by_code : Db → String → Option ℕ
id_by_code db code =
    role_id_of (fetch_optional (λ (r : RoleRow). r.code == code && r.is_active) db.roles)

unfoldable pub active_ids_by_ids : Db → List ℕ → List ℕ
active_ids_by_ids db role_ids = order_by_id (
    map (λ (r : RoleRow). r.id)
      (select (λ (r : RoleRow). elem r.id role_ids && r.is_active) db.roles))

unfoldable pub apply_update : RoleUpdate → RoleRow → RoleRow
unfolding is_set value
apply_update role r = record r {
  name = unwrap_or role.name r.name;
  category = unwrap_or role.category r.category;
  icon = if is_set role.icon then value role.icon else r.icon;
  color = unwrap_or role.color r.color;
  description = if is_set role.description then value role.description else r.description;
  data_scope = unwrap_or role.data_scope r.data_scope;
  is_active = unwrap_or role.is_active r.is_active;
}

unfoldable pub update : Db → ℕ → RoleUpdate → Bool × Db
unfolding apply_update
update db id role = (
  ltb 0 (count_where (λ (r : RoleRow). r.id == id) db.roles),
  record db { roles = update_where (λ (r : RoleRow). r.id == id) (apply_update role) db.roles },
)

-- The grants of a deleted role go with it (ON DELETE CASCADE on both tables).
unfoldable pub delete_if_unassigned : Db → ℕ → Bool × Db
unfolding has_member
delete_if_unassigned db id =
    if ltb 0 (count_where (λ (r : RoleRow). r.id == id) db.roles)
      && not (exists (has_member db id) db.user_roles)
    then (
      true,
      record db {
        roles = delete_where (λ (r : RoleRow). r.id == id) db.roles;
        user_roles = delete_where (λ (ur : UserRoleRow). ur.role_id == id) db.user_roles;
        role_permissions =
            delete_where (λ (rp : RolePermissionRow). rp.role_id == id) db.role_permissions;
      },
    )
    else (false, db)

unfoldable pub permission_ids_by_role : Db → ℕ → List ℕ
permission_ids_by_role db role_id = order_by_id (
    map (λ (rp : RolePermissionRow). rp.permission_id)
      (select (λ (rp : RolePermissionRow). rp.role_id == role_id) db.role_permissions))

unfoldable pub insert_permission : Db → ℕ → ℕ → Sql Db
insert_permission db role_id permission_id = do
  fail_if
      (exists
        (λ (rp : RolePermissionRow). rp.role_id == role_id && rp.permission_id == permission_id)
        db.role_permissions)
      unique_violation
  fail_if (not (exists (λ (p : PermissionRow). p.id == permission_id) db.permissions))
      foreign_key_violation
  fail_if (not (exists (λ (r : RoleRow). r.id == role_id) db.roles)) foreign_key_violation
  ok (record db {
    role_permissions =
        db.role_permissions ++ record { role_id = role_id; permission_id = permission_id } ∷ [];
  })

unfoldable pub insert_permissions : Db → ℕ → List ℕ → Sql Db
insert_permissions db role_id [] = ok db
insert_permissions db role_id (p ∷ ps) = do
  db' ← insert_permission db role_id p
  insert_permissions db' role_id ps

unfoldable pub assign_permissions : Db → ℕ → List ℕ → Sql Db
assign_permissions db role_id permission_ids =
    insert_permissions
      (record db {
        role_permissions =
            delete_where (λ (rp : RolePermissionRow). rp.role_id == role_id) db.role_permissions;
      })
      role_id permission_ids
