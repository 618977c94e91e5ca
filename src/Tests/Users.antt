-- ===== src/Tests/Users.antt =====
-- Examples of the calls of the users' service.
use arc_admin.Prelude.{
  nat_eq, string_eq, String, [], arith, count_where, delete_where, distinct, elem, err, exists,
  false, fetch_optional, flat_map, is_some_of, ok, order_by_id, refl, select, some, true,
  update_where, ℕ, ◌∷◌, ◌≡◌,
}
use arc_admin.Db.{Db}
use arc_admin.Repo.Users
use arc_admin.Repo.Roles
use arc_admin.Repo.Departments
use arc_admin.Access.{as_str}
use arc_admin.Repo.Permissions
use arc_admin.Service.Users.Checks.{
  ensure_actor_can_access, validate_role_grant_scope, validate_batch_user_ids, ensure_all,
  protect_last_super_admin, exceeds,
}
use arc_admin.Service.Users.Deletion.{delete, delete_many, delete_all, delete_one}
use arc_admin.Service.Users.RoleGrants.{assign_roles, assign_one}
use arc_admin.Service.Users.SuperAdmin.{has_super_admin}
use arc_admin.Service.Users.SuperAdmin.Assigned.{HasOneSuperAdminRole}
use arc_admin.Repo.Users.Grants.{has_grant, assign_roles-has_grant}
use arc_admin.Repo.Permissions.{permission_codes_by_user}
use arc_admin.Service.Users.Checks.{super_admin_role}
use arc_admin.Access.{ActorContext}
use arc_admin.Error.{Sql}
use arc_admin.Service.Users.SuperAdmin.Reachable.{
  start, after, deletes, assigns, Reachable-has_super_admin,
}
use arc_admin.Service.Users.Privileges.{assign_roles-permissions}
use arc_admin.Service.Users.Removal.{IsGone, delete-IsGone, delete_many-IsGone}
use arc_admin.Repo.AuditLogs.{record_log}
use arc_admin.Repo.Sessions
use arc_admin.Service.Passwords.{record_session_revocation}
use arc_admin.Tests.Accounts.{accounts, root, left}

abbrev after_delete : Db
after_delete = left (delete 7 3 (some root) accounts)

deputy_deleted : delete 7 3 (some root) accounts ≡ ok after_delete
unfolding delete ensure_actor_can_access Users.find_by_id_for_actor fetch_optional
    Users.in_data_scope protect_last_super_admin Users.super_admin_guard_state elem Users.holders
    flat_map select distinct Users.soft_delete count_where
deputy_deleted = refl

abbrev after_assign : Db
after_assign = left (assign_roles 2 (some root) (1 ∷ 2 ∷ []) true after_delete)

editor_promoted : assign_roles 2 (some root) (1 ∷ 2 ∷ []) true after_delete ≡ ok after_assign
unfolding assign_roles delete ensure_actor_can_access Users.find_by_id_for_actor fetch_optional
    Users.in_data_scope protect_last_super_admin Users.super_admin_guard_state elem Users.holders
    flat_map select distinct Users.soft_delete count_where record_log record_session_revocation
    as_str delete_where exists order_by_id update_where Departments.visible_departments
    Permissions.codes_by_role_ids permission_codes_by_user Roles.active_ids_by_ids Roles.id_by_code
    Sessions.revoke_all_for_user Users.assign_roles Users.insert_role Users.insert_roles
    Users.is_active Users.role_ids_by_user exceeds validate_role_grant_scope delete_one assign_one
    Permissions.grants_to Permissions.codes_of_roles Users.is_present
editor_promoted = refl

root_present : has_super_admin accounts ≡ true
unfolding has_super_admin fetch_optional exists arc_admin.Repo.Users.Holders.is_holder
root_present = refl

one_role : HasOneSuperAdminRole accounts
unfolding count_where
one_role = omega arith

Reachable-has_super_admin_example : has_super_admin after_assign ≡ true
Reachable-has_super_admin_example =
    Reachable-has_super_admin accounts after_assign one_role root_present (
      after (after start (deletes 7 3 (some root) deputy_deleted))
        (assigns 2 (some root) (1 ∷ 2 ∷ []) true editor_promoted))

assign_roles-permissions_example :
    ((code : String)
      → elem code (permission_codes_by_user after_assign 2) ≡ true
      → elem code (permission_codes_by_user after_delete 1) ≡ true)
    × ((id : ℕ)
        → super_admin_role after_delete ≡ some id
        → has_grant after_assign 2 id ≡ true
        → true ≡ true)
assign_roles-permissions_example =
    assign_roles-permissions 2 root (1 ∷ 2 ∷ []) true after_delete editor_promoted

delete-IsGone_example : (is_some_of {A = ℕ} (some 1) 3 ≡ false) × IsGone after_delete 3
delete-IsGone_example = delete-IsGone 7 3 (some root) accounts deputy_deleted

abbrev after_batch : Db
after_batch = left (delete_many 7 (some root) (2 ∷ 3 ∷ []) accounts)

both_deleted : delete_many 7 (some root) (2 ∷ 3 ∷ []) accounts ≡ ok after_batch
unfolding delete_many delete_all ensure_all validate_batch_user_ids ensure_actor_can_access
    Users.find_by_id_for_actor fetch_optional Users.in_data_scope protect_last_super_admin
    Users.super_admin_guard_state elem Users.holders flat_map select distinct Users.soft_delete
    count_where record_log record_session_revocation as_str delete_where exists order_by_id
    update_where Departments.visible_departments Permissions.codes_by_role_ids
    permission_codes_by_user Roles.active_ids_by_ids Roles.id_by_code Sessions.revoke_all_for_user
    Users.assign_roles Users.insert_role Users.insert_roles Users.is_active Users.role_ids_by_user
    exceeds validate_role_grant_scope delete_one assign_one Permissions.grants_to
    Permissions.codes_of_roles Users.is_present
both_deleted = refl

delete_many-IsGone_example :
    ((a : ActorContext) × (some root ≡ some a) × (elem a.user_id (2 ∷ 3 ∷ []) ≡ false))
    × ((id : ℕ) → elem id (2 ∷ 3 ∷ []) ≡ true → IsGone after_batch id)
    × ((other : ℕ)
        → elem other (2 ∷ 3 ∷ []) ≡ false
        → Users.find_by_id after_batch other ≡ Users.find_by_id accounts other)
delete_many-IsGone_example = delete_many-IsGone 7 (some root) (2 ∷ 3 ∷ []) accounts both_deleted

abbrev assigned : Sql Db → Db
assigned (ok db) = db
assigned (err e) = accounts

editor_rows :
    Users.assign_roles accounts 2 (1 ∷ []) ≡ ok (assigned (Users.assign_roles accounts 2 (1 ∷ [])))
unfolding Users.assign_roles Users.insert_roles Users.insert_role exists delete_where
editor_rows = refl

assign_roles-has_grant_example :
    has_grant (assigned (Users.assign_roles accounts 2 (1 ∷ []))) 2 1 ≡ elem {A = ℕ} 1 (1 ∷ [])
assign_roles-has_grant_example = assign_roles-has_grant accounts 2 (1 ∷ []) 2 1 editor_rows
