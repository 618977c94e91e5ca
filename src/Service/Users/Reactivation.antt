-- ===== src/Service/Users/Reactivation.antt =====
-- An account that an actor sets active again brings no more than the actor has.
use arc_admin.Prelude.{
  nat_eq, string_eq, Bool, Bool-cases, List, Option, String, ap, arith, count_where, elem, exists,
  false, inl, inr, is_some, none, ok, refl, some, sym, true, ℕ, ◌&&◌, ◌==◌, ◌||◌, ◌∙◌, ◌≡◌,
}
use arc_admin.Access.{ActorContext}
use arc_admin.External.{External}
use arc_admin.Db.{Db, UserRow, UserRoleRow, PermissionRow, RolePermissionRow, Detail}
use arc_admin.Repo.Users
use arc_admin.Repo.Users.{update_present}
use arc_admin.Repo.Users.Grants.{has_grant}
use arc_admin.Repo.Users.RoleIds.{elem-role_ids_by_user}
use arc_admin.Repo.Permissions.{grants_to, codes_by_role_ids, permission_codes_by_user}
use arc_admin.Repo.Permissions.Codes.{codes-weaken}
use arc_admin.Repo.Sessions
use arc_admin.Repo.AuditLogs.{record_log}
use arc_admin.Service.Passwords.{record_session_revocation}
use arc_admin.Service.Users.Checks.{super_admin_role, validate_role_grant_scope}
use arc_admin.Service.Users.Requests.{UpdateUserRequest}
use arc_admin.Service.Users.Profile.{update, revokes_sessions, write_password}
use arc_admin.Service.Users.Privileges.{validate_role_grant_scope-ok, grants_to-has_grant}
use arc_admin.Service.Users.SuperAdmin.Updates.{update-ok, after_writes}

-- The tables of which an update of a user writes nothing.
abbrev Grants : Type 0
Grants = List UserRoleRow × List PermissionRow × List RolePermissionRow

abbrev grants : Db → Grants
grants db = (db.user_roles, db.permissions, db.role_permissions)

write_password-grants :
    (db : Db) (id : ℕ) (hash : Option String) {db' : Db}
    → write_password db id hash ≡ ok db'
    → grants db' ≡ grants db
unfolding Users.update_password update_present
write_password-grants db id none h = ground arith
write_password-grants db id (some hash) h = ground arith

after_writes-grants :
    (now : ℕ) (actor : Option ℕ) (id : ℕ) (revokes : Bool) (reason : String)
    (details : List (String × Detail)) (profile : Db)
    → grants (after_writes now actor id revokes reason details profile) ≡ grants profile
unfolding record_log record_session_revocation Sessions.revoke_all_for_user
after_writes-grants now actor id false reason details profile = refl
after_writes-grants now actor id true reason details profile =
    elim (Bool-cases (count_where (Sessions.is_open id) profile.auth_sessions == 0)) [
      | inl none_open ↦ rw none_open
      | inr some_open ↦ rw some_open
    ]

has_grant-grants :
    (pool db' : Db) (id role_id : ℕ)
    → grants db' ≡ grants pool
    → has_grant db' id role_id ≡ true
    → has_grant pool id role_id ≡ true
has_grant-grants pool db' id role_id same has =
    ap
      (λ (x : Grants). exists (λ (ur : UserRoleRow). ur.user_id == id && ur.role_id == role_id) x.0)
      (sym same)
    ∙ has

-- In unchanged tables, the codes of a user are among those of the user's roles.
own-codes :
    (pool db' : Db) (id : ℕ) (code : String)
    → grants db' ≡ grants pool
    → elem code (permission_codes_by_user db' id) ≡ true
    → elem code (codes_by_role_ids pool (Users.role_ids_by_user pool id)) ≡ true
unfolding permission_codes_by_user codes_by_role_ids
own-codes pool db' id code same e =
    codes-weaken db' pool (grants_to db' id) (λ r. elem r (Users.role_ids_by_user pool id)) code
      (ap (λ (t : Grants). t.1) same) (ap (λ (t : Grants). t.2) same)
      (λ r t.
        elem-role_ids_by_user pool id r
        ∙ has_grant-grants pool db' id r same (grants_to-has_grant db' id r t))
      e

updated-grants :
    (now id : ℕ) (actor : ActorContext) (revokes : Bool) (reason : String)
    (details : List (String × Detail)) (name : Option String) (is_set : Bool)
    (email status : Option String) (department_id : Option ℕ) (pool middle db' : Db)
    (hash : Option String)
    → write_password pool id hash ≡ ok middle
    → db'
      ≡ after_writes now
          (some actor.user_id)
          id
          revokes
          reason
          details
          (Users.update_profile middle id name is_set email status department_id).1
    → grants db' ≡ grants pool
unfolding Users.update_profile update_present
updated-grants now id actor revokes reason details name is_set email status department_id pool
      middle db' hash written e =
    ap grants e
    ∙ after_writes-grants now (some actor.user_id) id revokes reason details
        (Users.update_profile middle id name is_set email status department_id).1
    ∙ write_password-grants pool id hash written

module _ (ext : External) (salt : List ℕ) (now id : ℕ) (actor : ActorContext)
    (req : UpdateUserRequest) (can_grant_super_admin can_assign_department : Bool) where
  -- Where an actor's update set the status of an account to active: every permission that the account
  -- then has was the actor's before, and it has the super administrator's role only if the actor may
  -- grant it.
  pub update-permissions :
      (pool : Db) {row : UserRow} {db' : Db}
      → update ext salt now id (some actor) req can_grant_super_admin can_assign_department pool
        ≡ ok (row, db')
      → req.status ≡ some "active"
      → ((code : String)
          → elem code (permission_codes_by_user db' id) ≡ true
          → elem code (permission_codes_by_user pool actor.user_id) ≡ true)
        × ((role_id : ℕ)
            → super_admin_role pool ≡ some role_id
            → has_grant db' id role_id ≡ true
            → can_grant_super_admin ≡ true)
  update-permissions pool {db'} h active =
      let (
        middle, hash, name, email, is_set, department_id, reason, details, checked, _, written, e,
      ) =
        update-ok ext salt now id (some actor) req can_grant_super_admin can_assign_department pool
          h in
      let scoped : validate_role_grant_scope pool (some actor.user_id)
            (Users.role_ids_by_user pool id) can_grant_super_admin
          ≡ ok tt =
        rw active at checked in
      let (codes, super) =
        validate_role_grant_scope-ok pool actor.user_id (Users.role_ids_by_user pool id)
          can_grant_super_admin scoped in
      let same : grants db' ≡ grants pool =
        updated-grants now id actor (is_some hash || revokes_sessions req.status) reason details
          name is_set email req.status department_id pool middle db' hash written e in
      (
        λ code has. codes code (own-codes pool db' id code same has),
        λ role_id known has.
            super role_id known (
              elem-role_ids_by_user pool id role_id
              ∙ has_grant-grants pool db' id role_id same has),
      )
