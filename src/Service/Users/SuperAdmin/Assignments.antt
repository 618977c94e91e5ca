-- ===== src/Service/Users/SuperAdmin/Assignments.antt =====
-- No assignment of roles takes the last super administrator.
use arc_admin.Prelude.{
  nat_eq, string_eq, >>=-eq-ok, Bool, Bool-cases, List, Option, String, [], ap, arith, elem, err,
  if◌then◌else◌, inl, inr, none, not, ok, ok_or-eq-ok, refl, some, true, ℕ, ◌&&◌, ◌||◌, ◌∙◌, ◌∷◌,
  ◌≡◌,
}
use arc_admin.Access.{ActorContext}
use arc_admin.Error.{from_db, Sql, Api}
use arc_admin.Db.{Db, Detail}
use arc_admin.Repo.Users
use arc_admin.Repo.Users.{has_role, is_active}
use arc_admin.Repo.Users.Grants.{assign_roles-rows}
use arc_admin.Repo.Roles
use arc_admin.Repo.AuditLogs.{record_log}
use arc_admin.Service.Users.Checks.{
  protect_last_super_admin, ensure_actor_can_access, user_of, ensure_all, validate_batch_user_ids,
  validate_role_grant_scope, super_admin_role,
}
use arc_admin.Service.Users.RoleGrants.{
  assign_one, assign_roles, assign_all, assign_roles_many, holds, log_mfa_policy,
}
use arc_admin.Service.Users.SuperAdmin.{has_super_admin}
use arc_admin.Service.Users.SuperAdmin.Assigned.{HasOneSuperAdminRole, assigned-has_super_admin}

from_db-ok : {A : Type 0} (m : Sql A) {a : A} → from_db m ≡ ok a → m ≡ ok a
from_db-ok (ok b) h = ground arith
from_db-ok (err e) h = cc

abbrev done : Db → Api Db
done db = ok db

ok-same : {a b : Db} → done a ≡ done b → a ≡ b
ok-same h = ground arith

abbrev LogsOnly : Db → Db → Type 0
LogsOnly db db' = db' ≡ record db { audit_logs = db'.audit_logs }

log_mfa_policy-LogsOnly :
    (db : Db) (actor_id : Option ℕ) (user_id : ℕ) (super_admin : Option ℕ)
    (previous role_ids : List ℕ)
    → LogsOnly db (log_mfa_policy db actor_id user_id super_admin previous role_ids)
unfolding record_log
log_mfa_policy-LogsOnly db actor_id user_id none previous role_ids = refl
log_mfa_policy-LogsOnly db actor_id user_id (some k) previous role_ids =
    elim (Bool-cases
      (elem k previous && elem k role_ids || not (elem k previous) && not (elem k role_ids))) [
        | inl same ↦ rw same
        | inr differs ↦ rw differs
      ]

logged-LogsOnly :
    (assigned policy db' : Db) (actor_id : Option ℕ) (user_id : ℕ)
    (details : List (String × Detail))
    → LogsOnly assigned policy
    → record_log policy actor_id "user.roles.update" "user" (some user_id) details ≡ db'
    → LogsOnly assigned db'
unfolding record_log
logged-LogsOnly assigned policy db' actor_id user_id details kept h = ground arith

-- What an assignment in a transaction came through, and what it left but for its log records.
pub assign_one-ok :
    (actor_id super_admin : Option ℕ) (previous role_ids : List ℕ) (db : Db) (user_id : ℕ)
    {db' : Db}
    → assign_one actor_id super_admin previous role_ids db user_id ≡ ok db'
    → (assigned : Db) × ((if holds super_admin role_ids
          then ok tt
          else protect_last_super_admin db user_id)
        ≡ ok tt)
      × (Users.assign_roles db user_id role_ids ≡ ok assigned)
      × LogsOnly assigned db'
unfolding assign_one
assign_one-ok actor_id super_admin previous role_ids db user_id {db'} h =
    let (_, guarded, h1) =
      >>=-eq-ok (if holds super_admin role_ids then ok tt else protect_last_super_admin db user_id)
        _ h in
    let (assigned, written, h2) =
      >>=-eq-ok (from_db (Users.assign_roles db user_id role_ids)) _ h1 in
    (
      assigned,
      guarded,
      from_db-ok _ written,
      logged-LogsOnly assigned _ db' actor_id user_id _
          (log_mfa_policy-LogsOnly assigned actor_id user_id super_admin previous role_ids)
          (ok-same h2),
    )

assign_one-roles :
    (actor_id super_admin : Option ℕ) (previous role_ids : List ℕ) (db : Db) (user_id : ℕ)
    {db' : Db}
    → assign_one actor_id super_admin previous role_ids db user_id ≡ ok db'
    → db'.roles ≡ db.roles
assign_one-roles actor_id super_admin previous role_ids db user_id h =
    let (assigned, _, written, logged) =
      assign_one-ok actor_id super_admin previous role_ids db user_id h in
    ap Db.roles logged ∙ ap Db.roles (assign_roles-rows db user_id role_ids written)

assign_one-has_super_admin :
    (actor_id super_admin : Option ℕ) (previous role_ids : List ℕ) (db : Db) (user_id : ℕ)
    {db' : Db}
    → HasOneSuperAdminRole db
    → super_admin_role db ≡ super_admin
    → assign_one actor_id super_admin previous role_ids db user_id ≡ ok db'
    → has_super_admin db ≡ true
    → has_super_admin db' ≡ true
assign_one-has_super_admin actor_id super_admin previous role_ids db user_id unique known h one =
    let (assigned, guarded, written, logged) =
      assign_one-ok actor_id super_admin previous role_ids db user_id h in
    let kept =
      assigned-has_super_admin db assigned user_id super_admin role_ids unique known guarded written
        one in
    rw logged (unfold has_super_admin in kept)

assign_all-has_super_admin :
    (actor : ActorContext) (super_admin : Option ℕ) (role_ids : List ℕ) (pool db : Db)
    (user_ids : List ℕ) {db' : Db}
    → HasOneSuperAdminRole db
    → super_admin_role db ≡ super_admin
    → assign_all actor super_admin role_ids pool db user_ids ≡ ok db'
    → has_super_admin db ≡ true
    → has_super_admin db' ≡ true
unfolding assign_all
assign_all-has_super_admin actor super_admin role_ids pool db [] unique known h one = ground arith
assign_all-has_super_admin actor super_admin role_ids pool db (id ∷ user_ids) unique known h one =
    let (next, first, others) =
      >>=-eq-ok
        (assign_one (some actor.user_id) super_admin (Users.role_ids_by_user pool id) role_ids db
          id)
        _ h in
    let same =
      assign_one-roles (some actor.user_id) super_admin (Users.role_ids_by_user pool id) role_ids db
        id first in
    let still =
      assign_one-has_super_admin (some actor.user_id) super_admin (Users.role_ids_by_user pool id)
        role_ids db id unique known first one in
    assign_all-has_super_admin actor super_admin role_ids pool next user_ids (rw same unique)
      (unfold Roles.id_by_code in rw same known) others still

-- An assignment of roles that succeeds leaves an active super administrator, if there was one and the
-- code of that role is unique.
pub assign_roles-has_super_admin :
    (user_id : ℕ) (actor : Option ActorContext) (role_ids : List ℕ) (can_grant_super_admin : Bool)
    (pool : Db) {db' : Db}
    → HasOneSuperAdminRole pool
    → assign_roles user_id actor role_ids can_grant_super_admin pool ≡ ok db'
    → has_super_admin pool ≡ true
    → has_super_admin db' ≡ true
unfolding assign_roles
assign_roles-has_super_admin user_id actor role_ids can_grant_super_admin pool unique h one =
    let (_, _, h1) = >>=-eq-ok (ensure_actor_can_access pool actor user_id) _ h in
    let (_, _, h2) =
      >>=-eq-ok (validate_role_grant_scope pool (user_of actor) role_ids can_grant_super_admin) _
        h1 in
    assign_one-has_super_admin (user_of actor) (super_admin_role pool) _ role_ids pool user_id
      unique refl h2 one

-- So does a batch of assignments.
pub assign_roles_many-has_super_admin :
    (actor : Option ActorContext) (user_ids role_ids : List ℕ) (can_grant_super_admin : Bool)
    (pool : Db) {db' : Db}
    → HasOneSuperAdminRole pool
    → assign_roles_many actor user_ids role_ids can_grant_super_admin pool ≡ ok db'
    → has_super_admin pool ≡ true
    → has_super_admin db' ≡ true
unfolding assign_roles_many
assign_roles_many-has_super_admin actor user_ids role_ids can_grant_super_admin pool unique h one =
    let (a, _, h1) = ok_or-eq-ok actor _ _ h in
    let (_, _, h2) = >>=-eq-ok (validate_batch_user_ids user_ids a.user_id) _ h1 in
    let (_, _, h3) =
      >>=-eq-ok (validate_role_grant_scope pool (some a.user_id) role_ids can_grant_super_admin) _
        h2 in
    let (_, _, h4) = >>=-eq-ok (ensure_all pool a user_ids) _ h3 in
    assign_all-has_super_admin a (super_admin_role pool) role_ids pool pool user_ids unique refl h4
      one

assign_all-roles :
    (actor : ActorContext) (super_admin : Option ℕ) (role_ids : List ℕ) (pool db : Db)
    (user_ids : List ℕ) {db' : Db}
    → assign_all actor super_admin role_ids pool db user_ids ≡ ok db'
    → db'.roles ≡ db.roles
unfolding assign_all
assign_all-roles actor super_admin role_ids pool db [] h = ground arith
assign_all-roles actor super_admin role_ids pool db (id ∷ user_ids) h =
    let (next, first, others) =
      >>=-eq-ok
        (assign_one (some actor.user_id) super_admin (Users.role_ids_by_user pool id) role_ids db
          id)
        _ h in
    assign_all-roles actor super_admin role_ids pool next user_ids others
    ∙ assign_one-roles (some actor.user_id) super_admin (Users.role_ids_by_user pool id) role_ids db
        id first

pub assign_roles-roles :
    (user_id : ℕ) (actor : Option ActorContext) (role_ids : List ℕ) (can_grant_super_admin : Bool)
    (pool : Db) {db' : Db}
    → assign_roles user_id actor role_ids can_grant_super_admin pool ≡ ok db'
    → db'.roles ≡ pool.roles
unfolding assign_roles
assign_roles-roles user_id actor role_ids can_grant_super_admin pool h =
    let (_, _, h1) = >>=-eq-ok (ensure_actor_can_access pool actor user_id) _ h in
    let (_, _, h2) =
      >>=-eq-ok (validate_role_grant_scope pool (user_of actor) role_ids can_grant_super_admin) _
        h1 in
    assign_one-roles (user_of actor) (super_admin_role pool) _ role_ids pool user_id h2

pub assign_roles_many-roles :
    (actor : Option ActorContext) (user_ids role_ids : List ℕ) (can_grant_super_admin : Bool)
    (pool : Db) {db' : Db}
    → assign_roles_many actor user_ids role_ids can_grant_super_admin pool ≡ ok db'
    → db'.roles ≡ pool.roles
unfolding assign_roles_many
assign_roles_many-roles actor user_ids role_ids can_grant_super_admin pool h =
    let (a, _, h1) = ok_or-eq-ok actor _ _ h in
    let (_, _, h2) = >>=-eq-ok (validate_batch_user_ids user_ids a.user_id) _ h1 in
    let (_, _, h3) =
      >>=-eq-ok (validate_role_grant_scope pool (some a.user_id) role_ids can_grant_super_admin) _
        h2 in
    let (_, _, h4) = >>=-eq-ok (ensure_all pool a user_ids) _ h3 in
    assign_all-roles a (super_admin_role pool) role_ids pool pool user_ids h4
