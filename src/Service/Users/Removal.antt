-- ===== src/Service/Users/Removal.antt =====
-- What a deletion of a user leaves of the account.
use arc_admin.Prelude.{
  nat_eq, string_eq, >>=-eq-ok, Bool, Bool-cases, List, Option, String, [], all, ap, arith,
  count_where, delete_where, elem, exists, exists-delete_none, exists-none_weaken, exists-update,
  exists-update_none, false, fetch-update_other, inl, inr, is_some_of, nat_beq_iff, ok, refl, some,
  sym, true, update_where, ℕ, ◌==◌, ◌∙◌, ◌∷◌, ◌≡◌,
}
use mathlib.Core.Path.{subst}
use arc_admin.Access.{ActorContext}
use arc_admin.Error.{Api}
use arc_admin.Db.{Db, UserRoleRow}
use arc_admin.Repo.Users
use arc_admin.Repo.Users.{is_present}
use arc_admin.Repo.Sessions
use arc_admin.Repo.Sessions.{is_open}
use arc_admin.Repo.AuditLogs.{record_log}
use arc_admin.Service.Passwords.{record_session_revocation}
use arc_admin.Service.Users.Checks.{revoke_sessions, user_of, validate_batch_user_ids}
use arc_admin.Service.Users.Deletion.{delete_one, delete, delete_all, delete_many}
use arc_admin.Service.Users.SuperAdmin.Deletions.{
  delete_one-ok, soft_delete-rows, delete-ok, delete_many-ok,
}

-- The account is gone: no present row, no role, no open session.
pub record IsGone (db : Db) (id : ℕ) : Type 0 where
  pub no_row : exists (is_present id) db.users ≡ false
  pub no_role : exists (λ (ur : UserRoleRow). ur.user_id == id) db.user_roles ≡ false
  pub no_session : exists (is_open id) db.auth_sessions ≡ false

abbrev done : Db → Api Db
done db = ok db

ok-same : {a b : Db} → done a ≡ done b → a ≡ b
ok-same h = ground arith

exists-deleted : {A : Type 0} (p : A → Bool) (xs : List A) → exists p (delete_where p xs) ≡ false
unfolding exists delete_where
exists-deleted p [] = refl
exists-deleted p (x ∷ xs) = ground (arith, exists-deleted p xs)

-- A revocation changes the sessions as `revoke_all_for_user` does, and no account.
revoke_sessions-rows :
    (now : ℕ) (db : Db) (actor : Option ℕ) (id : ℕ) (reason : String)
    → ((revoke_sessions now db actor id reason).users ≡ db.users)
      × ((revoke_sessions now db actor id reason).user_roles ≡ db.user_roles)
      × ((revoke_sessions now db actor id reason).auth_sessions
          ≡ update_where (is_open id) (Sessions.revoked now) db.auth_sessions)
unfolding record_session_revocation Sessions.revoke_all_for_user record_log
revoke_sessions-rows now db actor id reason =
    elim (Bool-cases (count_where (is_open id) db.auth_sessions == 0)) [
      | inl none_open ↦ rw none_open (refl, refl, refl)
      | inr some_open ↦ rw some_open (refl, refl, refl)
    ]

delete_one-rows :
    (now : ℕ) (actor : Option ℕ) (previous : List ℕ) (db : Db) (id : ℕ) {db' : Db}
    → delete_one now actor previous db id ≡ ok db'
    → (db'.users ≡ update_where (is_present id) (λ u. record u { deleted_at = some now }) db.users)
      × (db'.user_roles ≡ delete_where (λ (ur : UserRoleRow). ur.user_id == id) db.user_roles)
      × (db'.auth_sessions ≡ update_where (is_open id) (Sessions.revoked now) db.auth_sessions)
unfolding record_log
delete_one-rows now actor previous db id h =
    let (_, found, e) = delete_one-ok now actor previous db id h in
    let (users, grants, sessions) =
      revoke_sessions-rows now (Users.soft_delete now db id).1 actor id "account_deleted" in
    let rows = soft_delete-rows now db id found in
    (
      ap Db.users e ∙ users ∙ ap Db.users rows,
      ap Db.user_roles e ∙ grants ∙ ap Db.user_roles rows,
      ap Db.auth_sessions e
          ∙ sessions
          ∙ ap (λ (d : Db). update_where (is_open id) (Sessions.revoked now) d.auth_sessions) rows,
    )

delete_one-IsGone :
    (now : ℕ) (actor : Option ℕ) (previous : List ℕ) (db : Db) (id : ℕ) {db' : Db}
    → delete_one now actor previous db id ≡ ok db'
    → IsGone db' id
unfolding is_present is_open
delete_one-IsGone now actor previous db id h =
    let (users, grants, sessions) = delete_one-rows now actor previous db id h in
    record {
      no_row = rw users (exists-update_none _ _ _ db.users (λ u. ground arith));
      no_role = rw grants (exists-deleted _ db.user_roles);
      no_session = rw sessions (exists-update_none _ _ _ db.auth_sessions (λ s. ground arith));
    }

-- Who is gone stays gone when another account is deleted.
delete_one-stays :
    (now : ℕ) (actor : Option ℕ) (previous : List ℕ) (db : Db) (id other : ℕ) {db' : Db}
    → delete_one now actor previous db id ≡ ok db'
    → IsGone db other
    → IsGone db' other
unfolding is_present is_open
delete_one-stays now actor previous db id other h gone =
    let (users, grants, sessions) = delete_one-rows now actor previous db id h in
    record {
      no_row = rw users (
          exists-update _ _ _ db.users
          ∙ exists-none_weaken _ (is_present other) db.users (λ u e. ground arith) gone.no_row);
      no_role = rw grants (exists-delete_none _ _ db.user_roles gone.no_role);
      no_session = rw sessions (
          exists-update _ _ _ db.auth_sessions
          ∙ exists-none_weaken _ (is_open other) db.auth_sessions (λ s e. ground arith)
              gone.no_session);
    }

-- A deletion never touches the actor's own account, and leaves no present row, no role and no open
-- session of the deleted one.
pub delete-IsGone :
    (now id : ℕ) (actor : Option ActorContext) (pool : Db) {db' : Db}
    → delete now id actor pool ≡ ok db'
    → (is_some_of (user_of actor) id ≡ false) × IsGone db' id
delete-IsGone now id actor pool h =
    let (not_self, one) = delete-ok now id actor pool h in
    (not_self, delete_one-IsGone now _ _ pool id one)

delete_one-find_other :
    (now : ℕ) (actor : Option ℕ) (previous : List ℕ) (db : Db) (id other : ℕ) {db' : Db}
    → delete_one now actor previous db id ≡ ok db'
    → (id == other) ≡ false
    → Users.find_by_id db' other ≡ Users.find_by_id db other
unfolding Users.find_by_id is_present
delete_one-find_other now actor previous db id other h apart =
    let (users, _, _) = delete_one-rows now actor previous db id h in
    rw users (
      fetch-update_other _ _ _ db.users
        (λ u e. ground (arith, nat_beq_iff id other, nat_beq_iff u.id id, nat_beq_iff u.id other)))

delete_all-stays :
    (now : ℕ) (actor : ActorContext) (pool db : Db) (user_ids : List ℕ) (other : ℕ) {db' : Db}
    → delete_all now actor pool db user_ids ≡ ok db'
    → IsGone db other
    → IsGone db' other
unfolding delete_all
delete_all-stays now actor pool db [] other h gone = subst (λ d. IsGone d other) (ok-same h) gone
delete_all-stays now actor pool db (id ∷ rest) other h gone =
    let (next, first, others) =
      >>=-eq-ok (delete_one now (some actor.user_id) (Users.role_ids_by_user pool id) db id) _ h in
    delete_all-stays now actor pool next rest other others
      (delete_one-stays now _ _ db id other first gone)

delete_all-IsGone :
    (now : ℕ) (actor : ActorContext) (pool db : Db) (user_ids : List ℕ) (id : ℕ) {db' : Db}
    → delete_all now actor pool db user_ids ≡ ok db'
    → elem id user_ids ≡ true
    → IsGone db' id
unfolding delete_all elem
delete_all-IsGone now actor pool db [] id h e = cc
delete_all-IsGone now actor pool db (x ∷ rest) id h e =
    let (next, first, others) =
      >>=-eq-ok (delete_one now (some actor.user_id) (Users.role_ids_by_user pool x) db x) _ h in
    elim (Bool-cases (x == id)) [
      | inl same ↦
          let eq : x ≡ id = (nat_beq_iff x id).0 same in
          rw (sym eq) (
            delete_all-stays now actor pool next rest x others
              (delete_one-IsGone now _ _ db x first))
      | inr apart ↦ delete_all-IsGone now actor pool next rest id others (ground arith)
    ]

delete_all-find_other :
    (now : ℕ) (actor : ActorContext) (pool db : Db) (user_ids : List ℕ) (other : ℕ) {db' : Db}
    → delete_all now actor pool db user_ids ≡ ok db'
    → elem other user_ids ≡ false
    → Users.find_by_id db' other ≡ Users.find_by_id db other
unfolding delete_all elem
delete_all-find_other now actor pool db [] other h e =
    ap (λ (d : Db). Users.find_by_id d other) (sym (ok-same h))
delete_all-find_other now actor pool db (x ∷ rest) other h e =
    let (next, first, others) =
      >>=-eq-ok (delete_one now (some actor.user_id) (Users.role_ids_by_user pool x) db x) _ h in
    delete_all-find_other now actor pool next rest other others (ground arith)
    ∙ delete_one-find_other now _ _ db x other first (ground arith)

batch_self :
    (user_ids : List ℕ) (actor : ℕ)
    → validate_batch_user_ids user_ids actor ≡ ok tt
    → elem actor user_ids ≡ false
unfolding validate_batch_user_ids
batch_self user_ids actor h = ground arith

-- A batch deletion that succeeds has an actor who is not in the batch, leaves no present row, no role
-- and no open session of any account in it, and finds every other account as before.
pub delete_many-IsGone :
    (now : ℕ) (actor : Option ActorContext) (user_ids : List ℕ) (pool : Db) {db' : Db}
    → delete_many now actor user_ids pool ≡ ok db'
    → ((a : ActorContext) × (actor ≡ some a) × (elem a.user_id user_ids ≡ false))
      × ((id : ℕ) → elem id user_ids ≡ true → IsGone db' id)
      × ((other : ℕ)
          → elem other user_ids ≡ false
          → Users.find_by_id db' other ≡ Users.find_by_id pool other)
delete_many-IsGone now actor user_ids pool h =
    let (a, known, valid, all) = delete_many-ok now actor user_ids pool h in
    (
      (a, known, batch_self user_ids a.user_id valid),
      λ id e. delete_all-IsGone now a pool pool user_ids id all e,
      λ other e. delete_all-find_other now a pool pool user_ids other all e,
    )
