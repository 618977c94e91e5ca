-- ===== src/Repo/Sessions/Revocation.antt =====
-- What the revocations of backend/src/repositories/auth_sessions.rs leave open.
use arc_admin.Prelude.{
  nat_eq, string_eq, Bool-cases, Option, String, arith, exists, exists-update_none, false, inl, inr,
  ℕ, ◌&&◌, ◌==◌, ◌≡◌,
}
use arc_admin.Db.{Db, SessionRow}
use arc_admin.Repo.Sessions.{is_open, revoked, revoke, revoke_all_for_user}
use arc_admin.Repo.AuditLogs.{record_log}
use arc_admin.Service.Passwords.{record_session_revocation}

-- the records of a revocation leave the sessions alone
pub record_session_revocation-sessions :
    (db : Db) (actor : Option ℕ) (user_id : ℕ) (reason : String) (count : ℕ)
    → (record_session_revocation db actor user_id reason count).auth_sessions ≡ db.auth_sessions
unfolding record_session_revocation record_log
record_session_revocation-sessions db actor user_id reason count = elim (Bool-cases (count == 0)) [
  | inl zero_count ↦ rw zero_count
  | inr some_count ↦ rw some_count
]

pub revoke_all_for_user-closed :
    (now : ℕ) (db : Db) (user_id : ℕ)
    → exists (is_open user_id) (revoke_all_for_user now db user_id).1.auth_sessions ≡ false
unfolding revoke_all_for_user is_open
revoke_all_for_user-closed now db user_id =
    exists-update_none (is_open user_id) (is_open user_id) (revoked now) db.auth_sessions
      (λ s. ground arith)

pub revoke-closed :
    (now : ℕ) (db : Db) (user_id session_id : ℕ)
    → exists
        (λ (s : SessionRow). s.id == session_id && is_open user_id s)
        (revoke now db session_id user_id).1.auth_sessions
      ≡ false
unfolding revoke is_open
revoke-closed now db user_id session_id =
    exists-update_none (λ (s : SessionRow). s.id == session_id && is_open user_id s)
      (λ (s : SessionRow). s.id == session_id && is_open user_id s) (revoked now) db.auth_sessions
      (λ s. ground arith)
