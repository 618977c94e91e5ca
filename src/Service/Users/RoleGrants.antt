-- ===== src/Service/Users/RoleGrants.antt =====
-- `assign_roles`, its call by an actor and `assign_roles_many` of backend/src/services/users.rs.
-- `pool` is the committed database, which the reads outside the transaction see.
use arc_admin.Prelude.{
  nat_eq, string_eq, Bool, List, Option, [], elem, false, if◌then◌else◌, none, not, ok, ok_or, some,
  ℕ, ◌&&◌, ◌>>=◌, ◌>>◌, ◌||◌, ◌∷◌,
}
use arc_admin.Access.{ActorContext}
use arc_admin.Error.{Api, forbidden, from_db}
use arc_admin.Db.{Db, ids, flag}
use arc_admin.Repo.Users
use arc_admin.Repo.Users.{NewUser}
use arc_admin.Repo.AuditLogs.{record_log}
use arc_admin.Service.Users.Checks.{
  ensure_actor_can_access, validate_batch_user_ids, validate_role_grant_scope,
  protect_last_super_admin, super_admin_role, user_of, ensure_all,
}

abbrev pub holds : Option ℕ → List ℕ → Bool
holds none role_ids = false
holds (some id) role_ids = elem id role_ids

-- The policy of the second factor follows the super administrator's role.
abbrev pub log_mfa_policy : Db → Option ℕ → ℕ → Option ℕ → List ℕ → List ℕ → Db
log_mfa_policy db actor_id user_id none previous role_ids = db
log_mfa_policy db actor_id user_id (some super_admin) previous role_ids =
    let was_required = elem super_admin previous in
    let is_required = elem super_admin role_ids in
    if was_required && is_required || not was_required && not is_required
    then db
    else record_log db actor_id "auth.mfa.policy.changed" "user" (some user_id)
        (("required", flag is_required) ∷ [])

-- The part of an assignment inside the transaction.
unfoldable pub assign_one : Option ℕ → Option ℕ → List ℕ → List ℕ → Db → ℕ → Api Db
assign_one actor_id super_admin previous role_ids db user_id = do
  if holds super_admin role_ids then ok tt else protect_last_super_admin db user_id
  assigned ← from_db (Users.assign_roles db user_id role_ids)
  let policy = log_mfa_policy assigned actor_id user_id super_admin previous role_ids
  ok (
      record_log policy actor_id "user.roles.update" "user" (some user_id)
        (("previousRoleIds", ids previous) ∷ ("roleIds", ids role_ids) ∷ []))

unfoldable pub assign_roles : ℕ → Option ActorContext → List ℕ → Bool → Db → Api Db
unfolding assign_one
assign_roles user_id actor role_ids can_grant_super_admin pool = do
  ensure_actor_can_access pool actor user_id
  let super_admin = super_admin_role pool
  validate_role_grant_scope pool (user_of actor) role_ids can_grant_super_admin
  assign_one (user_of actor) super_admin (Users.role_ids_by_user pool user_id) role_ids pool user_id

-- The loop of `assign_roles_many`; the previous roles are read from the pool.
unfoldable pub assign_all : ActorContext → Option ℕ → List ℕ → Db → Db → List ℕ → Api Db
assign_all actor super_admin role_ids pool db [] = ok db
assign_all actor super_admin role_ids pool db (id ∷ rest) = do
  next ← assign_one (some actor.user_id) super_admin (Users.role_ids_by_user pool id) role_ids db id
  assign_all actor super_admin role_ids pool next rest

unfoldable pub assign_roles_many : Option ActorContext → List ℕ → List ℕ → Bool → Db → Api Db
assign_roles_many maybe_actor user_ids role_ids can_grant_super_admin pool = do
  actor ← ok_or maybe_actor (forbidden "需要认证用户")
  validate_batch_user_ids user_ids actor.user_id
  validate_role_grant_scope pool (some actor.user_id) role_ids can_grant_super_admin
  ensure_all pool actor user_ids
  assign_all actor (super_admin_role pool) role_ids pool pool user_ids
