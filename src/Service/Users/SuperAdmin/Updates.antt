-- ===== src/Service/Users/SuperAdmin/Updates.antt =====
-- No update of a user takes the last super administrator.
use arc_admin.Prelude.{
  nat_eq, string_eq, >>=-eq-ok, Bool, List, Option, String, ap, arith, false, if◌then◌else◌,
  is_some, ok, ok_or-eq-ok, refl, some, true, ℕ, ◌||◌, ◌∙◌, ◌≡◌,
}
use arc_admin.Access.{ActorContext}
use arc_admin.External.{External}
use arc_admin.Error.{Api}
use arc_admin.Db.{Db, UserRow, Detail}
use arc_admin.Repo.Users
use arc_admin.Repo.Users.{has_role, is_active, is_present, update_present}
use arc_admin.Repo.AuditLogs.{record_log}
use arc_admin.Service.Users.Checks.{
  protect_last_super_admin, ensure_actor_can_access, user_of, revoke_sessions,
}
use arc_admin.Service.Users.Requests.{
  UpdateUserRequest, nullable_patch, updated_name, trimmed_email,
}
use arc_admin.Service.Users.Profile.{
  update, updated_department, check_status, hashed_password, revokes_sessions, write_password,
}
use arc_admin.Service.Users.SuperAdmin.{has_super_admin}
use arc_admin.Service.Users.SuperAdmin.Writes.{
  has_super_admin-record_log, has_super_admin-revoke_sessions, revoke_sessions-roles,
}
use arc_admin.Service.Users.SuperAdmin.Written.{write_password-roles, guarded_writes}

abbrev updated_as : UserRow → Db → Api (UserRow × Db)
updated_as row db = ok (row, db)

-- The sessions and the log, after the user's row was written.
abbrev pub after_writes : ℕ → Option ℕ → ℕ → Bool → String → List (String × Detail) → Db → Db
after_writes now actor id revokes reason details profile =
    record_log (if revokes then revoke_sessions now profile actor id reason else profile) actor
      "user.update" "user" (some id) details

updated_as-eq : (a b : UserRow) (db db' : Db) → updated_as a db ≡ updated_as b db' → db' ≡ db
updated_as-eq a b db db' h = ground arith

after_writes-has_super_admin :
    (now : ℕ) (actor : Option ℕ) (id : ℕ) (revokes : Bool) (reason : String)
    (details : List (String × Detail)) (profile : Db)
    → has_super_admin (after_writes now actor id revokes reason details profile)
      ≡ has_super_admin profile
after_writes-has_super_admin now actor id revokes reason details profile =
    has_super_admin-record_log
      (if revokes then revoke_sessions now profile actor id reason else profile) actor "user.update"
      "user" (some id) details
    ∙ ground (arith, has_super_admin-revoke_sessions now profile actor id reason)

after_writes-roles :
    (now : ℕ) (actor : Option ℕ) (id : ℕ) (revokes : Bool) (reason : String)
    (details : List (String × Detail)) (profile : Db)
    → (after_writes now actor id revokes reason details profile).roles ≡ profile.roles
unfolding record_log
after_writes-roles now actor id false reason details profile = refl
after_writes-roles now actor id true reason details profile =
    revoke_sessions-roles now profile actor id reason

module _ (ext : External) (salt : List ℕ) (now id : ℕ) (actor : Option ActorContext)
    (req : UpdateUserRequest) (can_grant_super_admin can_assign_department : Bool) where
  -- What an update that succeeded came through, and what it left.
  pub update-ok :
      (pool : Db) {row : UserRow} {db' : Db}
      → update ext salt now id actor req can_grant_super_admin can_assign_department pool
        ≡ ok (row, db')
      → (middle : Db) × (hash display_name email : Option String) × (email_is_set : Bool)
        × (department_id : Option ℕ) × (reason : String) × (details : List (String × Detail))
        × (check_status pool (user_of actor) id req.status can_grant_super_admin ≡ ok tt)
        × ((if revokes_sessions req.status then protect_last_super_admin pool id else ok tt)
            ≡ ok tt)
        × (write_password pool id hash ≡ ok middle)
        × (db'
            ≡ after_writes now
                (user_of actor)
                id
                (is_some hash || revokes_sessions req.status)
                reason
                details
                (Users.update_profile middle id display_name email_is_set email req.status
                  department_id).1)
  unfolding update
  update-ok pool {row} {db'} h =
      let (_, _, h1) = >>=-eq-ok (ensure_actor_can_access pool actor id) _ h in
      let (department_id, _, h2) =
        >>=-eq-ok (updated_department pool actor id req.department_id can_assign_department) _ h1 in
      let (display_name, _, h3) = >>=-eq-ok (updated_name req.display_name) _ h2 in
      let (_, checked, h4) =
        >>=-eq-ok (check_status pool (user_of actor) id req.status can_grant_super_admin) _ h3 in
      let (hash, _, h5) = >>=-eq-ok (hashed_password ext salt req.password) _ h4 in
      let (_, guarded, h6) =
        >>=-eq-ok (if revokes_sessions req.status then protect_last_super_admin pool id else ok tt)
          _ h5 in
      let (middle, written, h7) = >>=-eq-ok (write_password pool id hash) _ h6 in
      let patch = nullable_patch req.email in
      let (_, _, h8) =
        ok_or-eq-ok
          (Users.update_profile middle id display_name patch.0 (trimmed_email patch.1) req.status
            department_id).0
          _ _ h7 in
      (
        middle,
        hash,
        display_name,
        trimmed_email patch.1,
        patch.0,
        department_id,
        _,
        _,
        checked,
        guarded,
        written,
        updated_as-eq _ row _ db' h8,
      )

  -- An update of a user that succeeds leaves an active super administrator, if there was one.
  pub update-has_super_admin :
      (pool : Db) {row : UserRow} {db' : Db}
      → update ext salt now id actor req can_grant_super_admin can_assign_department pool
        ≡ ok (row, db')
      → has_super_admin pool ≡ true
      → has_super_admin db' ≡ true
  update-has_super_admin pool h one =
      let (
        middle, hash, name, email, is_set, department_id, reason, details, _, guarded, written, e,
      ) =
        update-ok pool h in
      let kept =
        guarded_writes now pool middle id hash name is_set email req.status department_id guarded
          written one in
      rw
        (
          e,
          after_writes-has_super_admin now (user_of actor) id
              (is_some hash || revokes_sessions req.status) reason details
              (Users.update_profile middle id name is_set email req.status department_id).1,
        )
        kept

  pub update-roles :
      (pool : Db) {row : UserRow} {db' : Db}
      → update ext salt now id actor req can_grant_super_admin can_assign_department pool
        ≡ ok (row, db')
      → db'.roles ≡ pool.roles
  unfolding Users.update_profile update_present
  update-roles pool h =
      let (
        middle, hash, name, email, is_set, department_id, reason, details, _, guarded, written, e,
      ) =
        update-ok pool h in
      ap Db.roles e
      ∙ after_writes-roles now (user_of actor) id (is_some hash || revokes_sessions req.status)
          reason details _
      ∙ write_password-roles pool id hash written
