-- ===== src/Repo/Users.antt =====
-- backend/src/repositories/users.rs.
pub mod Holders
pub mod Grants
pub mod RoleIds
use arc_admin.Prelude.{
  nat_eq, string_eq, Bool, List, Option, String, [], count_where, delete_where, distinct, elem, err,
  exists, fail_if, false, fetch_optional, flat_map, if◌then◌else◌, is_none, is_some, is_some_and,
  is_some_of, length, ltb, map, none, not, ok, order_by_id, select, some, suc, true, unwrap_or,
  update_where, ℕ, ◌&&◌, ◌++◌, ◌+◌, ◌==◌, ◌>>=◌, ◌>>◌, ◌||◌, ◌∷◌,
}
use arc_admin.Access.{ActorContext, as_str}
use arc_admin.Error.{Sql, unique_violation, foreign_key_violation, other}
use arc_admin.Db.{Db, UserRow, UserRoleRow, RoleRow, DepartmentRow}
use arc_admin.Repo.Departments.{visible_departments}

pub record NewUser : Type 0 where
  pub username : String
  pub password_hash : String
  pub display_name : String
  pub email : Option String
  pub status : String
  pub organization_id : ℕ
  pub department_id : Option ℕ

-- `id = $1 AND deleted_at IS NULL`
unfoldable pub is_present : ℕ → UserRow → Bool
is_present id u = u.id == id && is_none u.deleted_at

unfoldable pub find_by_username : Db → String → Option UserRow
find_by_username db username =
    fetch_optional (λ u. u.username == username && is_none u.deleted_at) db.users

unfoldable pub find_by_id : Db → ℕ → Option UserRow
unfolding is_present
find_by_id db id = fetch_optional (is_present id) db.users

-- SQL's `a = b` of two nullable columns: never true of a NULL.
abbrev both_equal : Option ℕ → Option ℕ → Bool
both_equal (some a) b = is_some_of b a
both_equal none b = false

-- The row filter of the actor's data scope.
unfoldable pub in_data_scope : Db → ActorContext → UserRow → Bool
unfolding as_str
in_data_scope db actor u =
    let scope = as_str actor.data_scope in
    let visible = visible_departments db actor.organization_id actor.department_id in
    scope == "all"
    || u.organization_id == actor.organization_id
      && (scope == "organization"
          || scope == "self" && u.id == actor.user_id
          || scope == "department" && both_equal u.department_id actor.department_id
          || scope == "department_and_children"
            && is_some_and u.department_id (λ d. elem d visible))

unfoldable pub find_by_id_for_actor : Db → ActorContext → ℕ → Option UserRow
unfolding is_present
find_by_id_for_actor db actor id =
    fetch_optional (λ u. is_present id u && in_data_scope db actor u) db.users

-- The constraints of the table: a present user's name is unique, and the department is one of the
-- organization.
username_taken : Db → String → Bool
username_taken db username =
    exists (λ (u : UserRow). u.username == username && is_none u.deleted_at) db.users

department_missing : Db → ℕ → Option ℕ → Bool
department_missing db org none = false
department_missing db org (some d) =
    not (exists (λ (r : DepartmentRow). r.id == d && r.organization_id == org) db.departments)

unfoldable pub create : Db → NewUser → Sql (UserRow × Db)
unfolding username_taken department_missing
create db user =
    let row : UserRow = record {
      id = db.next_user;
      username = user.username;
      password_hash = user.password_hash;
      display_name = user.display_name;
      email = user.email;
      status = user.status;
      organization_id = user.organization_id;
      department_id = user.department_id;
      token_version = 0;
      last_login_at = none;
      deleted_at = none;
    } in
    do
      fail_if (username_taken db user.username) unique_violation
      fail_if (department_missing db user.organization_id user.department_id) foreign_key_violation
      ok (row, record db { users = db.users ++ row ∷ []; next_user = suc db.next_user })

-- UPDATE … WHERE id = $1 AND deleted_at IS NULL RETURNING: the new row, if there is one.
abbrev returning : Option UserRow → (UserRow → UserRow) → Option UserRow
returning none f = none
returning (some u) f = some (f u)

unfoldable pub update_present : Db → ℕ → (UserRow → UserRow) → Option UserRow × Db
unfolding find_by_id
update_present db id f =
    (returning (find_by_id db id) f, record db { users = update_where (is_present id) f db.users })

unfoldable pub update_profile :
    Db → ℕ → Option String → Bool → Option String → Option String → Option ℕ → Option UserRow × Db
unfolding update_present
update_profile db id display_name email_is_set email status department_id =
    update_present db id λ u. record u {
      display_name = unwrap_or display_name u.display_name;
      email = if email_is_set then email else u.email;
      status = unwrap_or status u.status;
      department_id = if is_some department_id then department_id else u.department_id;
    }

unfoldable pub update_password : Db → ℕ → String → Option UserRow × Db
unfolding update_present
update_password db id password_hash =
    update_present db id
      λ u. record u { password_hash = password_hash; token_version = u.token_version + 1 }

-- The row is marked, and only then does the user lose the roles.
unfoldable pub soft_delete : ℕ → Db → ℕ → Bool × Db
unfolding is_present
soft_delete now db id =
    let marked = record db {
      users = update_where (is_present id) (λ u. record u { deleted_at = some now }) db.users;
    } in
    if ltb 0 (count_where (is_present id) db.users)
    then (
      true,
      record marked {
        user_roles = delete_where (λ (ur : UserRoleRow). ur.user_id == id) db.user_roles;
      },
    )
    else (false, marked)

-- `u.deleted_at IS NULL AND u.status = 'active'`
unfoldable pub is_active : UserRow → Bool
is_active u = is_none u.deleted_at && u.status == "active"

abbrev pub has_role : List UserRoleRow → ℕ → UserRow → Bool
has_role grants role_id u = exists (λ ur. ur.user_id == u.id && ur.role_id == role_id) grants

-- users JOIN user_roles, of the active users that hold the role: an id for each joined row.
unfoldable pub holders : List UserRow → List UserRoleRow → ℕ → List ℕ
unfolding is_active
holders users grants role_id =
    flat_map
      (λ (u : UserRow).
        map (λ (ur : UserRoleRow). u.id)
          (select
            (λ (ur : UserRoleRow). ur.user_id == u.id && (ur.role_id == role_id && is_active u))
            grants))
      users

-- Whether the user is among the ids, and how many ids there are.
abbrev guard_state : Db → ℕ → Option RoleRow → Bool × ℕ
guard_state db user_id none = (false, 0)
guard_state db user_id (some role) =
    let ids = holders db.users db.user_roles role.id in (elem user_id ids, length (distinct ids))

-- The role is looked up whether it is active or not.
unfoldable pub super_admin_guard_state : Db → ℕ → Bool × ℕ
super_admin_guard_state db user_id =
    guard_state db user_id (fetch_optional (λ (r : RoleRow). r.code == "super_admin") db.roles)

unfoldable pub update_last_login : ℕ → Db → ℕ → Db
update_last_login now db id = record db {
  users = update_where (λ u. u.id == id) (λ u. record u { last_login_at = some now }) db.users;
}

unfoldable pub role_ids_by_user : Db → ℕ → List ℕ
role_ids_by_user db user_id = order_by_id (
    map (λ (ur : UserRoleRow). ur.role_id)
      (select (λ (ur : UserRoleRow). ur.user_id == user_id) db.user_roles))

-- One INSERT: the pair is the table's key, and both ids are foreign keys.
unfoldable pub insert_role : Db → ℕ → ℕ → Sql Db
insert_role db user_id role_id = do
  fail_if (exists (λ ur. ur.user_id == user_id && ur.role_id == role_id) db.user_roles)
      unique_violation
  fail_if (not (exists (λ (r : RoleRow). r.id == role_id) db.roles)) foreign_key_violation
  fail_if (not (exists (λ (u : UserRow). u.id == user_id) db.users)) foreign_key_violation
  ok (record db {
    user_roles = db.user_roles ++ record { user_id = user_id; role_id = role_id } ∷ [];
  })

-- `for role_id in role_ids`
unfoldable pub insert_roles : Db → ℕ → List ℕ → Sql Db
insert_roles db user_id [] = ok db
insert_roles db user_id (role_id ∷ role_ids) = do
  db' ← insert_role db user_id role_id
  insert_roles db' user_id role_ids

unfoldable pub assign_roles : Db → ℕ → List ℕ → Sql Db
assign_roles db user_id role_ids =
    insert_roles
      (record db { user_roles = delete_where (λ ur. ur.user_id == user_id) db.user_roles }) user_id
      role_ids

-- `fetch_one` finds no row: the account is gone.
abbrev one_row : {A : Type 0} → Option A → Sql A
one_row none = err (other "no rows returned")
one_row (some a) = ok a

unfoldable pub activate_bootstrap_account :
    Db → ℕ → String → String → Option String → Sql (UserRow × Db)
unfolding update_present
activate_bootstrap_account db id password_hash display_name email =
    let activated = update_present db id λ u. record u {
      password_hash = password_hash;
      display_name = display_name;
      email = email;
      status = "active";
      token_version = u.token_version + 1;
    } in
    do row ← one_row activated.0; ok (row, activated.1)

unfoldable pub role_names_by_user : Db → ℕ → List String
role_names_by_user db user_id =
    flat_map (λ id. map (λ (r : RoleRow). r.name) (select (λ (r : RoleRow). r.id == id) db.roles))
      (role_ids_by_user db user_id)
