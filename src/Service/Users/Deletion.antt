-- ===== src/Service/Users/Deletion.antt =====
-- `delete`, `delete_by_actor` and `delete_many` of backend/src/services/users.rs. `pool` is the
-- committed database, which the reads outside the transaction see.
use arc_admin.Prelude.{
  nat_eq, string_eq, List, Option, [], fail_if, is_some_of, not, ok, ok_or, some, ℕ, ◌>>=◌, ◌>>◌,
  ◌∷◌,
}
use arc_admin.Access.{ActorContext}
use arc_admin.Error.{Api, forbidden, not_found}
use arc_admin.Db.{Db, ids}
use arc_admin.Repo.Users
use arc_admin.Repo.Users.{NewUser}
use arc_admin.Repo.AuditLogs.{record_log}
use arc_admin.Service.Users.Checks.{
  ensure_actor_can_access, validate_batch_user_ids, protect_last_super_admin, user_of, ensure_all,
  revoke_sessions,
}

-- The part of a deletion inside the transaction `db`; `previous` are the roles that the pool showed.
unfoldable pub delete_one : ℕ → Option ℕ → List ℕ → Db → ℕ → Api Db
delete_one now actor_id previous db id = do
  protect_last_super_admin db id
  let deleted = Users.soft_delete now db id
  fail_if (not deleted.0) (not_found "用户不存在")
  ok (
      record_log (revoke_sessions now deleted.1 actor_id id "account_deleted") actor_id
        "user.delete" "user" (some id) (("previousRoleIds", ids previous) ∷ []))

unfoldable pub delete : ℕ → ℕ → Option ActorContext → Db → Api Db
unfolding delete_one
delete now id actor pool = do
  ensure_actor_can_access pool actor id
  fail_if (is_some_of (user_of actor) id) (forbidden "不能删除当前登录账号")
  delete_one now (user_of actor) (Users.role_ids_by_user pool id) pool id

-- The loop of `delete_many`; the roles are read from the pool.
unfoldable pub delete_all : ℕ → ActorContext → Db → Db → List ℕ → Api Db
delete_all now actor pool db [] = ok db
delete_all now actor pool db (id ∷ rest) = do
  next ← delete_one now (some actor.user_id) (Users.role_ids_by_user pool id) db id
  delete_all now actor pool next rest

unfoldable pub delete_many : ℕ → Option ActorContext → List ℕ → Db → Api Db
unfolding ensure_all
delete_many now maybe_actor user_ids pool = do
  actor ← ok_or maybe_actor (forbidden "需要认证用户")
  validate_batch_user_ids user_ids actor.user_id
  ensure_all pool actor user_ids
  delete_all now actor pool pool user_ids
