-- ===== src/Service/Users/SuperAdmin/Writes.antt =====
-- What the writes on one user leave of the other holders of the super administrator's role.
use arc_admin.Prelude.{
  nat_eq, string_eq, List, Option, String, arith, delete_where, exists-delete_other, exists-update,
  exists-weaken, false, nat_beq_iff, refl, true, update_where, ℕ, ◌==◌, ◌∙◌, ◌≡◌,
}
use arc_admin.Db.{Db, UserRow, UserRoleRow, Detail}
use arc_admin.Repo.Users.{has_role, is_present}
use arc_admin.Repo.Users.Holders.{is_holder}
use arc_admin.Repo.Sessions
use arc_admin.Repo.AuditLogs.{record_log}
use arc_admin.Service.Passwords.{record_session_revocation}
use arc_admin.Service.Users.Checks.{revoke_sessions}
use arc_admin.Service.Users.SuperAdmin.{has_super_admin, held_by_other}

-- A log record and a revocation of sessions touch neither users nor roles.
pub has_super_admin-record_log :
    (db : Db) (actor : Option ℕ) (action target : String) (id : Option ℕ)
    (details : List (String × Detail))
    → has_super_admin (record_log db actor action target id details) ≡ has_super_admin db
unfolding record_log has_super_admin
has_super_admin-record_log db actor action target id details = refl

pub has_super_admin-revoke_sessions :
    (now : ℕ) (db : Db) (actor : Option ℕ) (id : ℕ) (reason : String)
    → has_super_admin (revoke_sessions now db actor id reason) ≡ has_super_admin db
unfolding record_session_revocation Sessions.revoke_all_for_user record_log has_super_admin
has_super_admin-revoke_sessions now db actor id reason = ground arith

pub revoke_sessions-roles :
    (now : ℕ) (db : Db) (actor : Option ℕ) (id : ℕ) (reason : String)
    → (revoke_sessions now db actor id reason).roles ≡ db.roles
unfolding record_session_revocation Sessions.revoke_all_for_user record_log
revoke_sessions-roles now db actor id reason = ground arith

-- Other users keep the role when the grants of one user go.
has_role-delete_other :
    (id role_id : ℕ) (u : UserRow) (grants : List UserRoleRow)
    → (u.id == id) ≡ false
    → has_role (delete_where (λ ur. ur.user_id == id) grants) role_id u ≡ has_role grants role_id u
has_role-delete_other id role_id u grants other = exists-delete_other _ _ grants (λ ur h.
    ground (arith, nat_beq_iff u.id id, nat_beq_iff ur.user_id u.id, nat_beq_iff ur.user_id id))

pub other-delete_grants :
    (id role_id : ℕ) (users : List UserRow) (grants : List UserRoleRow)
    → held_by_other id users grants role_id ≡ true
    → held_by_other id users (delete_where (λ ur. ur.user_id == id) grants) role_id ≡ true
unfolding is_holder
other-delete_grants id role_id users grants h =
    exists-weaken _ _ users (λ u e. ground (arith, has_role-delete_other id role_id u grants)) h

pub other-update_present :
    (id role_id : ℕ) (f : UserRow → UserRow) (users : List UserRow) (grants : List UserRoleRow)
    → held_by_other id users grants role_id ≡ true
    → held_by_other id (update_where (is_present id) f users) grants role_id ≡ true
unfolding is_present
other-update_present id role_id f users grants h =
    exists-update _ (is_present id) f users ∙ exists-weaken _ _ users (λ u e. ground arith) h
