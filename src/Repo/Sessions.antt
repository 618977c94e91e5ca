-- ===== src/Repo/Sessions.antt =====
-- backend/src/repositories/auth_sessions.rs.
pub mod Throttle
pub mod Limit
pub mod Context
pub mod Revocation
use arc_admin.Prelude.{
  nat_eq, string_eq, Bool, List, Option, String, count_where, delete_where, err, exists, false,
  fetch_optional, if◌then◌else◌, is_none, leb, ltb, none, not, ok, some, suc, update_where, ℕ, ◌&&◌,
  ◌*◌, ◌+◌, ◌==◌, ◌||◌, ◌∷◌,
}
use arc_admin.Error.{Sql, unique_violation}
use arc_admin.Db.{Db, SessionRow, LoginAttemptRow, StepUpRow, ModuleUnlockRow, seconds}

-- `user_id = $1 AND revoked_at IS NULL`
unfoldable pub is_open : ℕ → SessionRow → Bool
is_open user_id s = s.user_id == user_id && is_none s.revoked_at

abbrev pub revoked : ℕ → SessionRow → SessionRow
revoked now s = record s { revoked_at = some now }

unfoldable pub revoke : ℕ → Db → ℕ → ℕ → Bool × Db
unfolding is_open
revoke now db session_id user_id =
    let hit = λ (s : SessionRow). s.id == session_id && is_open user_id s in
    (
      ltb 0 (count_where hit db.auth_sessions),
      record db { auth_sessions = update_where hit (revoked now) db.auth_sessions },
    )

unfoldable pub revoke_all_for_user : ℕ → Db → ℕ → ℕ × Db
unfolding is_open
revoke_all_for_user now db user_id = (
  count_where (is_open user_id) db.auth_sessions,
  record db { auth_sessions = update_where (is_open user_id) (revoked now) db.auth_sessions },
)

pub record NewSession : Type 0 where
  pub user_id : ℕ
  pub session_token_hash : String
  pub csrf_token_hash : String
  pub token_version : ℕ
  pub idle_timeout_secs : ℕ
  pub persistent : Bool
  pub expires_at : ℕ

-- The row of the INSERT; the table gives it the next id.
unfoldable pub inserted : ℕ → Db → NewSession → Db
inserted now db session = record db {
  auth_sessions =
      record {
        id = db.next_session;
        user_id = session.user_id;
        session_token_hash = session.session_token_hash;
        csrf_token_hash = session.csrf_token_hash;
        token_version = session.token_version;
        idle_timeout_secs = session.idle_timeout_secs;
        persistent = session.persistent;
        created_at = now;
        last_seen_at = now;
        expires_at = session.expires_at;
        revoked_at = none;
      }
      ∷ db.auth_sessions;
  next_session = suc db.next_session;
}

-- `session_token_hash` is UNIQUE in the table.
unfoldable pub create : ℕ → Db → NewSession → Sql (ℕ × Db)
unfolding inserted
create now db session =
    if exists (λ (s : SessionRow). s.session_token_hash == session.session_token_hash)
      db.auth_sessions
    then err unique_violation
    else ok (db.next_session, inserted now db session)

-- `a` stands before `b` under ORDER BY created_at DESC, id DESC.
unfoldable pub is_newer : SessionRow → SessionRow → Bool
is_newer a b = ltb b.created_at a.created_at || b.created_at == a.created_at && ltb b.id a.id

-- The row is in the first $2 of its user's open sessions: fewer than that stand before it.
unfoldable pub is_within_limit : List SessionRow → ℕ → ℕ → SessionRow → Bool
unfolding is_open is_newer
is_within_limit sessions user_id max_sessions s =
    ltb (count_where (λ o. is_open user_id o && is_newer o s) sessions) max_sessions

unfoldable pub enforce_user_limit : ℕ → Db → ℕ → ℕ → ℕ × Db
unfolding is_open is_within_limit
enforce_user_limit now db user_id max_sessions =
    let over = λ (s : SessionRow).
      is_open user_id s && not (is_within_limit db.auth_sessions user_id max_sessions s) in
    (
      count_where over db.auth_sessions,
      record db { auth_sessions = update_where over (revoked now) db.auth_sessions },
    )

abbrev older_than : ℕ → ℕ → Option ℕ → Bool
older_than age now none = false
older_than age now (some at) = ltb (at + age) now

-- The WHERE of the DELETE on the sessions.
unfoldable pub is_outdated : ℕ → SessionRow → Bool
is_outdated now s =
    let week = seconds (7 * 86400) in
    older_than week now (some s.expires_at) || older_than week now s.revoked_at

-- The rows of a session's grants and unlocked modules go with it (ON DELETE CASCADE).
unfoldable pub prune : ℕ → Db → Db
unfolding is_outdated
prune now db =
    let month = seconds (30 * 86400) in
    let goes = λ (session_id : ℕ).
      exists (λ (s : SessionRow). s.id == session_id && is_outdated now s) db.auth_sessions in
    record db {
      auth_sessions = delete_where (is_outdated now) db.auth_sessions;
      step_up_tokens = delete_where (λ (t : StepUpRow). goes t.session_id) db.step_up_tokens;
      module_unlocks = delete_where (λ (u : ModuleUnlockRow). goes u.session_id) db.module_unlocks;
      login_attempts =
          delete_where (λ (a : LoginAttemptRow). older_than month now (some a.updated_at))
            db.login_attempts;
    }

-- `locked_until > now()`
abbrev pub if_later : ℕ → Option ℕ → Option ℕ
if_later now none = none
if_later now (some at) = if ltb now at then some at else none

abbrev pub attempt_lock : ℕ → Option LoginAttemptRow → Option ℕ
attempt_lock now none = none
attempt_lock now (some a) = if_later now a.locked_until

unfoldable pub locked_until : ℕ → Db → String → Option ℕ
locked_until now db identifier_hash = attempt_lock now (
    fetch_optional (λ (a : LoginAttemptRow). a.identifier_hash == identifier_hash)
      db.login_attempts)

-- The row that a failure leaves, DO UPDATE SET: the window starts again when it has run out.
unfoldable pub next_failure : ℕ → ℕ → ℕ → ℕ → LoginAttemptRow → LoginAttemptRow
next_failure now max_failures window_secs lockout_secs a =
    let restarts = leb (a.window_started_at + seconds window_secs) now in
    let count = if restarts then 1 else a.failure_count + 1 in
    record a {
      failure_count = count;
      window_started_at = if restarts then now else a.window_started_at;
      locked_until = if leb max_failures count then some (now + seconds lockout_secs) else none;
      updated_at = now;
    }

abbrev pub first_failure : ℕ → String → LoginAttemptRow
first_failure now identifier_hash = record {
  identifier_hash = identifier_hash;
  failure_count = 1;
  window_started_at = now;
  locked_until = none;
  updated_at = now;
}

abbrev stored_lock : Option LoginAttemptRow → Option ℕ
stored_lock none = none
stored_lock (some a) = a.locked_until

-- RETURNING locked_until: NULL for the row that is inserted.
unfoldable pub record_login_failure : ℕ → Db → String → ℕ → ℕ → ℕ → Option ℕ × Db
unfolding next_failure
record_login_failure now db identifier_hash max_failures window_secs lockout_secs =
    let same = λ (a : LoginAttemptRow). a.identifier_hash == identifier_hash in
    let attempts =
      if exists same db.login_attempts
      then update_where same (next_failure now max_failures window_secs lockout_secs)
          db.login_attempts
      else first_failure now identifier_hash ∷ db.login_attempts in
    (stored_lock (fetch_optional same attempts), record db { login_attempts = attempts })

unfoldable pub clear_login_failures : Db → String → Db
clear_login_failures db identifier_hash = record db {
  login_attempts =
      delete_where (λ (a : LoginAttemptRow). a.identifier_hash == identifier_hash)
        db.login_attempts;
}
