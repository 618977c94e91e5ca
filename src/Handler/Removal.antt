-- ===== src/Handler/Removal.antt =====
-- What a deletion through the handler (backend/src/handlers/users.rs) has asked for, and does.
use arc_admin.Prelude.{nat_eq, string_eq, false, is_some_of, ok, some, ℕ, ◌≡◌}
use arc_admin.Db.{Db}
use arc_admin.Access.{ActorContext}
use arc_admin.Service.Users.Deletion
use arc_admin.Service.Users.Removal.{IsGone, delete-IsGone}
use arc_admin.Handler.{Call, commit, status_no_content}
use arc_admin.Handler.Users
use arc_admin.Handler.Authorized.{IsAuthorized, sensitive-done, commit-ok}

-- A deletion that the handler answers with success was asked for by an authenticated actor whose
-- roles have the permission, with a live grant for deletions; the account is not the actor's, and it
-- is gone.
pub delete_user-IsAuthorized :
    (call : Call) (id : ℕ) (pool : Db) {left : Db}
    → Users.delete call id pool ≡ (ok status_no_content, left)
    → (actor : ActorContext) × IsAuthorized call "user:admin:deactivate" "users.delete" pool actor
      × (is_some_of (some actor.user_id) id ≡ false)
      × IsGone left id
unfolding Users.delete
delete_user-IsAuthorized call id pool h =
    let service = λ (actor : ActorContext).
      commit status_no_content (Deletion.delete call.now id (some actor)) in
    let (actor, mid, authorized, done, _, _) =
      sensitive-done call "user:admin:deactivate" "users.delete" service pool h in
    let (other, gone) =
      delete-IsGone call.now id (some actor) mid
        (commit-ok (Deletion.delete call.now id (some actor)) mid 204 done) in
    (actor, authorized, other, gone)
