-- ===== src/Service/Users/SuperAdmin/Deletions.antt =====
-- No deletion of users takes the last super administrator.
use arc_admin.Prelude.{
  nat_eq, string_eq, >>=-eq-ok, List, Option, [], all, ap, arith, delete_where, fail_if-eq-ok,
  false, is_some_of, not, ok, ok_or-eq-ok, some, true, update_where, ℕ, ◌==◌, ◌∙◌, ◌∷◌, ◌≡◌,
}
use arc_admin.Access.{ActorContext}
use arc_admin.Error.{not_found}
use arc_admin.Db.{Db, UserRow, UserRoleRow, ids}
use arc_admin.Repo.Users
use arc_admin.Repo.Users.{is_present}
use arc_admin.Repo.AuditLogs.{record_log}
use arc_admin.Service.Users.Checks.{
  protect_last_super_admin, revoke_sessions, ensure_actor_can_access, user_of, ensure_all,
  validate_batch_user_ids,
}
use arc_admin.Service.Users.Deletion.{delete_one, delete, delete_all, delete_many}
use arc_admin.Service.Users.SuperAdmin.{
  has_super_admin, super_admin_row-held, has_super_admin-held, protect-held_by_other, held-other,
}
use arc_admin.Service.Users.SuperAdmin.Writes.{
  has_super_admin-record_log, has_super_admin-revoke_sessions, revoke_sessions-roles,
  other-delete_grants, other-update_present,
}

abbrev deleted_at : ℕ → UserRow → UserRow
deleted_at now u = record u { deleted_at = some now }

-- The rows after a deletion that succeeded.
pub soft_delete-rows :
    (now : ℕ) (db : Db) (id : ℕ)
    → (Users.soft_delete now db id).0 ≡ true
    → (Users.soft_delete now db id).1 ≡ record db {
      users = update_where (is_present id) (deleted_at now) db.users;
      user_roles = delete_where (λ (ur : UserRoleRow). ur.user_id == id) db.user_roles;
    }
unfolding Users.soft_delete
soft_delete-rows now db id h = ground arith

soft_delete-has_super_admin :
    (now : ℕ) (db : Db) (id : ℕ)
    → protect_last_super_admin db id ≡ ok tt
    → (Users.soft_delete now db id).0 ≡ true
    → has_super_admin db ≡ true
    → has_super_admin (Users.soft_delete now db id).1 ≡ true
soft_delete-has_super_admin now db id guarded h one =
    let (role, e, here) = super_admin_row-held db one in
    let other = protect-held_by_other db id role guarded e here in
    let rest = other-delete_grants id role.id db.users db.user_roles other in
    let left = other-update_present id role.id (deleted_at now) db.users _ rest in
    rw (soft_delete-rows now db id h)
      (has_super_admin-held _ role e (held-other id _ _ role.id left))

-- What a deletion in a transaction came through, and what it left.
pub delete_one-ok :
    (now : ℕ) (actor : Option ℕ) (previous : List ℕ) (db : Db) (id : ℕ) {db' : Db}
    → delete_one now actor previous db id ≡ ok db'
    → (protect_last_super_admin db id ≡ ok tt)
      × ((Users.soft_delete now db id).0 ≡ true)
      × (db'
          ≡ record_log
              (revoke_sessions now (Users.soft_delete now db id).1 actor id "account_deleted")
              actor
              "user.delete"
              "user"
              (some id)
              (("previousRoleIds", ids previous) ∷ []))
unfolding delete_one
delete_one-ok now actor previous db id h =
    let (_, guarded, h1) = >>=-eq-ok (protect_last_super_admin db id) _ h in
    let (found, h2) =
      fail_if-eq-ok (not (Users.soft_delete now db id).0) (not_found "用户不存在") _ h1 in
    (guarded, ground arith, ground arith)

pub delete_one-has_super_admin :
    (now : ℕ) (actor : Option ℕ) (previous : List ℕ) (db : Db) (id : ℕ) {db' : Db}
    → delete_one now actor previous db id ≡ ok db'
    → has_super_admin db ≡ true
    → has_super_admin db' ≡ true
delete_one-has_super_admin now actor previous db id h one =
    let (guarded, found, e) = delete_one-ok now actor previous db id h in
    let kept = soft_delete-has_super_admin now db id guarded found one in
    rw
      (
        e,
        has_super_admin-record_log _ actor "user.delete" "user" (some id)
            (("previousRoleIds", ids previous) ∷ []),
        has_super_admin-revoke_sessions now (Users.soft_delete now db id).1 actor id
            "account_deleted",
      )
      kept

delete_all-has_super_admin :
    (now : ℕ) (actor : ActorContext) (pool db : Db) (user_ids : List ℕ) {db' : Db}
    → delete_all now actor pool db user_ids ≡ ok db'
    → has_super_admin db ≡ true
    → has_super_admin db' ≡ true
unfolding delete_all
delete_all-has_super_admin now actor pool db [] h one = ground arith
delete_all-has_super_admin now actor pool db (id ∷ rest) h one =
    let (next, first, others) =
      >>=-eq-ok (delete_one now (some actor.user_id) (Users.role_ids_by_user pool id) db id) _ h in
    delete_all-has_super_admin now actor pool next rest others
      (delete_one-has_super_admin now _ _ db id first one)

-- A deletion that succeeds leaves an active super administrator, if there was one.
pub delete-has_super_admin :
    (now id : ℕ) (actor : Option ActorContext) (pool : Db) {db' : Db}
    → delete now id actor pool ≡ ok db'
    → has_super_admin pool ≡ true
    → has_super_admin db' ≡ true
unfolding delete
delete-has_super_admin now id actor pool h one =
    let (_, _, h1) = >>=-eq-ok (ensure_actor_can_access pool actor id) _ h in
    let (_, h2) = fail_if-eq-ok (is_some_of (user_of actor) id) _ _ h1 in
    delete_one-has_super_admin now _ _ pool id h2 one

-- So does a batch: the guard is asked again for each user, in the state that the deletions before
-- left.
pub delete_many-has_super_admin :
    (now : ℕ) (actor : Option ActorContext) (user_ids : List ℕ) (pool : Db) {db' : Db}
    → delete_many now actor user_ids pool ≡ ok db'
    → has_super_admin pool ≡ true
    → has_super_admin db' ≡ true
unfolding delete_many
delete_many-has_super_admin now actor user_ids pool h one =
    let (a, _, h1) = ok_or-eq-ok actor _ _ h in
    let (_, _, h2) = >>=-eq-ok (validate_batch_user_ids user_ids a.user_id) _ h1 in
    let (_, _, h3) = >>=-eq-ok (ensure_all pool a user_ids) _ h2 in
    delete_all-has_super_admin now a pool pool user_ids h3 one

delete_one-roles :
    (now : ℕ) (actor : Option ℕ) (previous : List ℕ) (db : Db) (id : ℕ) {db' : Db}
    → delete_one now actor previous db id ≡ ok db'
    → db'.roles ≡ db.roles
unfolding record_log
delete_one-roles now actor previous db id h =
    let (_, found, e) = delete_one-ok now actor previous db id h in
    ap Db.roles e
    ∙ revoke_sessions-roles now (Users.soft_delete now db id).1 actor id "account_deleted"
    ∙ ap Db.roles (soft_delete-rows now db id found)

delete_all-roles :
    (now : ℕ) (actor : ActorContext) (pool db : Db) (user_ids : List ℕ) {db' : Db}
    → delete_all now actor pool db user_ids ≡ ok db'
    → db'.roles ≡ db.roles
unfolding delete_all
delete_all-roles now actor pool db [] h = ground arith
delete_all-roles now actor pool db (id ∷ rest) h =
    let (next, first, others) =
      >>=-eq-ok (delete_one now (some actor.user_id) (Users.role_ids_by_user pool id) db id) _ h in
    delete_all-roles now actor pool next rest others ∙ delete_one-roles now _ _ db id first

pub delete-ok :
    (now id : ℕ) (actor : Option ActorContext) (pool : Db) {db' : Db}
    → delete now id actor pool ≡ ok db'
    → (is_some_of (user_of actor) id ≡ false)
      × (delete_one now (user_of actor) (Users.role_ids_by_user pool id) pool id ≡ ok db')
unfolding delete
delete-ok now id actor pool h =
    let (_, _, h1) = >>=-eq-ok (ensure_actor_can_access pool actor id) _ h in
    fail_if-eq-ok (is_some_of (user_of actor) id) _ _ h1

pub delete-roles :
    (now id : ℕ) (actor : Option ActorContext) (pool : Db) {db' : Db}
    → delete now id actor pool ≡ ok db'
    → db'.roles ≡ pool.roles
delete-roles now id actor pool h =
    delete_one-roles now _ _ pool id (delete-ok now id actor pool h).1

pub delete_many-ok :
    (now : ℕ) (actor : Option ActorContext) (user_ids : List ℕ) (pool : Db) {db' : Db}
    → delete_many now actor user_ids pool ≡ ok db'
    → (a : ActorContext) × (actor ≡ some a)
      × (validate_batch_user_ids user_ids a.user_id ≡ ok tt)
      × (delete_all now a pool pool user_ids ≡ ok db')
unfolding delete_many
delete_many-ok now actor user_ids pool h =
    let (a, known, h1) = ok_or-eq-ok actor _ _ h in
    let (_, valid, h2) = >>=-eq-ok (validate_batch_user_ids user_ids a.user_id) _ h1 in
    let (_, _, h3) = >>=-eq-ok (ensure_all pool a user_ids) _ h2 in (a, known, valid, h3)

pub delete_many-roles :
    (now : ℕ) (actor : Option ActorContext) (user_ids : List ℕ) (pool : Db) {db' : Db}
    → delete_many now actor user_ids pool ≡ ok db'
    → db'.roles ≡ pool.roles
delete_many-roles now actor user_ids pool h =
    let (a, _, _, all) = delete_many-ok now actor user_ids pool h in
    delete_all-roles now a pool pool user_ids all
