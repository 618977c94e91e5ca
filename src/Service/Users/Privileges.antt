-- ===== src/Service/Users/Privileges.antt =====
-- Nobody hands out more than they have: `validate_role_grant_scope` of backend/src/services/users.rs.
use arc_admin.Prelude.{
  nat_eq, string_eq, >>=-eq-ok, Bool, List, String, ap, arith, elem, exists-weaken, false,
  if◌then◌else◌, nat_beq_iff, ok, some, sym, true, ℕ, ◌&&◌, ◌==◌, ◌∙◌, ◌≡◌,
}
use arc_admin.Access.{ActorContext}
use arc_admin.Db.{Db, UserRoleRow}
use arc_admin.Repo.Users.{is_active}
use arc_admin.Repo.Users.Grants.{has_grant, assign_roles-rows, assign_roles-has_grant}
use arc_admin.Repo.Users
use arc_admin.Repo.Permissions.{grants_to, codes_by_role_ids, permission_codes_by_user}
use arc_admin.Repo.Permissions.Codes.{codes-weaken, elem-within}
use arc_admin.Service.Users.Checks.{
  ensure_actor_can_access, validate_role_grant_scope, super_admin_role, exceeds,
}
use arc_admin.Service.Users.RoleGrants.{assign_roles}
use arc_admin.Service.Users.SuperAdmin.Assignments.{assign_one-ok}

-- What a scope check that passed leaves known.
pub validate_role_grant_scope-ok :
    (pool : Db) (actor : ℕ) (role_ids : List ℕ) (can_grant_super_admin : Bool)
    → validate_role_grant_scope pool (some actor) role_ids can_grant_super_admin ≡ ok tt
    → ((code : String)
        → elem code (codes_by_role_ids pool role_ids) ≡ true
        → elem code (permission_codes_by_user pool actor) ≡ true)
      × ((id : ℕ)
          → super_admin_role pool ≡ some id
          → elem id role_ids ≡ true
          → can_grant_super_admin ≡ true)
unfolding validate_role_grant_scope
validate_role_grant_scope-ok pool actor role_ids can_grant_super_admin h =
    let within : exceeds (codes_by_role_ids pool role_ids) (permission_codes_by_user pool actor)
        ≡ false =
      ground arith in
    (
      λ code e.
          elem-within code (codes_by_role_ids pool role_ids) (permission_codes_by_user pool actor)
            (unfold exceeds in within) e,
      λ id e asked. ground arith,
    )

granted-role :
    (db db' assigned : Db) (user_id role_id : ℕ) (role_ids : List ℕ)
    → Users.assign_roles db user_id role_ids ≡ ok assigned
    → db' ≡ record assigned { audit_logs = db'.audit_logs }
    → has_grant db' user_id role_id ≡ elem role_id role_ids
granted-role db db' assigned user_id role_id role_ids written logged =
    let all : has_grant assigned user_id role_id
        ≡ (if user_id == user_id then elem role_id role_ids else has_grant db user_id role_id) =
      assign_roles-has_grant db user_id role_ids user_id role_id written in
    ap (λ (d : Db). has_grant d user_id role_id) logged
    ∙ ground (arith, all, nat_beq_iff user_id user_id)

pub grants_to-has_grant :
    (db : Db) (user_id role_id : ℕ)
    → grants_to db user_id role_id ≡ true
    → has_grant db user_id role_id ≡ true
unfolding grants_to
grants_to-has_grant db user_id role_id h =
    exists-weaken (λ (ur : UserRoleRow). ur.role_id == role_id && ur.user_id == user_id) _
      db.user_roles (λ ur e. ground arith) (ground arith)

gained-codes :
    (pool db' assigned : Db) (user_id : ℕ) (role_ids : List ℕ) (code : String)
    → Users.assign_roles pool user_id role_ids ≡ ok assigned
    → db' ≡ record assigned { audit_logs = db'.audit_logs }
    → elem code (permission_codes_by_user db' user_id) ≡ true
    → elem code (codes_by_role_ids pool role_ids) ≡ true
unfolding permission_codes_by_user codes_by_role_ids
gained-codes pool db' assigned user_id role_ids code written logged e =
    let rows = assign_roles-rows pool user_id role_ids written in
    codes-weaken db' pool (grants_to db' user_id) (λ r. elem r role_ids) code
      (ap Db.permissions logged ∙ ap Db.permissions rows)
      (ap Db.role_permissions logged ∙ ap Db.role_permissions rows)
      (λ r t.
        sym (granted-role pool db' assigned user_id r role_ids written logged)
        ∙ grants_to-has_grant db' user_id r t)
      e

-- Where an actor assigned roles to a user: every permission that the user then has was the actor's
-- before; and the super administrator's role is among the new ones only where the actor may grant
-- it.
pub assign_roles-permissions :
    (user_id : ℕ) (actor : ActorContext) (role_ids : List ℕ) (can_grant_super_admin : Bool)
    (pool : Db) {db' : Db}
    → assign_roles user_id (some actor) role_ids can_grant_super_admin pool ≡ ok db'
    → ((code : String)
        → elem code (permission_codes_by_user db' user_id) ≡ true
        → elem code (permission_codes_by_user pool actor.user_id) ≡ true)
      × ((id : ℕ)
          → super_admin_role pool ≡ some id
          → has_grant db' user_id id ≡ true
          → can_grant_super_admin ≡ true)
unfolding assign_roles
assign_roles-permissions user_id actor role_ids can_grant_super_admin pool {db'} h =
    let (_, _, h1) = >>=-eq-ok (ensure_actor_can_access pool (some actor) user_id) _ h in
    let (_, scoped, h2) =
      >>=-eq-ok (validate_role_grant_scope pool (some actor.user_id) role_ids can_grant_super_admin)
        _ h1 in
    let (codes, super) =
      validate_role_grant_scope-ok pool actor.user_id role_ids can_grant_super_admin scoped in
    let (assigned, _, written, logged) =
      assign_one-ok (some actor.user_id) (super_admin_role pool) _ role_ids pool user_id h2 in
    (
      λ code e. codes code (gained-codes pool db' assigned user_id role_ids code written logged e),
      λ id known t.
          super id known
            (sym (granted-role pool db' assigned user_id id role_ids written logged) ∙ t),
    )
