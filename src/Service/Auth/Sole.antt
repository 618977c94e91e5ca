-- ===== src/Service/Auth/Sole.antt =====
-- `create_login_session` of backend/src/services/auth.rs for a user without an open session.
use arc_admin.Prelude.{
  nat_eq, string_eq, Bool, ap, arith, count-delete-le, count-exists, count-none, count-update-le,
  count_where, exists, false, nat_beq_iff, ok, ok_injective, refl, some, sym, true, ℕ, ◌&&◌, ◌+◌,
  ◌==◌, ◌∙◌, ◌∷◌, ◌≡◌, ◌≤◌,
}
use arc_admin.External.{External}
use arc_admin.Db.{Db, UserRow}
use arc_admin.Repo.Users
use arc_admin.Repo.Sessions
use arc_admin.Repo.Sessions.{is_open}
use arc_admin.Repo.AuditLogs.{record_log}
use arc_admin.Service.Passwords.{record_session_revocation}
use arc_admin.Service.Auth.{AuthSessionConfig, LoginThrottleKeys}
use arc_admin.Service.Auth.LoginSession.{TokenBytes, prepared, recorded}
use arc_admin.Service.Auth.{LoginSessionOutcome}
use arc_admin.Service.Auth.LoginSession.{store_session, create_login_session, outcome}
use arc_admin.Service.Auth.Opened.{
  record_session_revocation-logs, left_db, opened_row, stored_row, store_session-first, IsFresh,
  store_session-done,
}
use arc_admin.Error.{Api}
use arc_admin.Action.{and_then-done, check, check-done, transaction, transaction-done}
use arc_admin.Auth.Token.{token_hash, random_token}
use arc_admin.Repo.Sessions.{is_newer, is_within_limit}
use arc_admin.Db.{SessionRow, seconds}

enforce-le :
    (now user_id max_sessions : ℕ) (db : Db)
    → count_where
        (is_open user_id)
        (Sessions.enforce_user_limit now db user_id max_sessions).1.auth_sessions
      ≤ count_where (is_open user_id) db.auth_sessions
unfolding Sessions.enforce_user_limit is_open
enforce-le now user_id max_sessions db =
    count-update-le (is_open user_id) _ (Sessions.revoked now) db.auth_sessions (λ s. ground arith)

prune-le :
    (now user_id : ℕ) (db : Db)
    → count_where (is_open user_id) (Sessions.prune now db).auth_sessions
      ≤ count_where (is_open user_id) db.auth_sessions
unfolding Sessions.prune
prune-le now user_id db = count-delete-le (is_open user_id) _ db.auth_sessions

abbrev fine : LoginSessionOutcome → Api LoginSessionOutcome
fine answer = ok answer

module _ (ext : External) (now utc_now : ℕ) (config : AuthSessionConfig) (persistent : Bool)
    (keys : LoginThrottleKeys) (bytes : TokenBytes) (row : UserRow) (pool : Db) where
  abbrev left_here : Db
  left_here = left_db ext now utc_now config persistent keys bytes row pool

  abbrev opened_here : SessionRow
  opened_here = opened_row ext now utc_now config persistent keys bytes row pool

  inserted-le :
      count_where
        (is_open row.id)
        (stored_row ext now utc_now config persistent keys bytes row pool).auth_sessions
      ≤ 1 + count_where (is_open row.id) pool.auth_sessions
  unfolding prepared Sessions.inserted Sessions.clear_login_failures Users.update_last_login
      count_where
  inserted-le = ground arith

  -- the session that is opened is the only one
  store_session-sole :
      exists (is_open row.id) pool.auth_sessions ≡ false
      → count_where (is_open row.id) left_here.auth_sessions ≤ 1
  unfolding recorded record_log
  store_session-sole closed =
      let opened = stored_row ext now utc_now config persistent keys bytes row pool in
      let limited = Sessions.enforce_user_limit now opened row.id config.max_sessions_per_user in
      let logs =
        record_session_revocation-logs limited.1 (some row.id) row.id "session_limit" limited.0 in
      let kept = ap (λ (d : Db). count_where (is_open row.id) d.auth_sessions) logs in
      let logged =
        record_session_revocation limited.1 (some row.id) row.id "session_limit" limited.0 in
      omega (
        arith,
        prune-le now row.id logged,
        kept,
        enforce-le now row.id config.max_sessions_per_user opened,
        inserted-le,
        count-exists (is_open row.id) pool.auth_sessions closed,
      )

  -- no open session of the user stands before the new one
  opened-within :
      exists (is_open row.id) pool.auth_sessions ≡ false
      → 1 ≤ config.max_sessions_per_user
      → is_within_limit
          (opened_here ∷ pool.auth_sessions)
          row.id
          config.max_sessions_per_user
          opened_here
        ≡ true
  unfolding is_within_limit is_newer count_where
  opened-within closed some_allowed =
      let none_open =
        count-none (λ o. is_open row.id o && is_newer o opened_here) (is_open row.id)
          pool.auth_sessions (λ o h. ground arith) closed in
      ground (arith, none_open, some_allowed)

  -- it stays open, with the hash of its token, and no other is open
  pub store_session-one :
      exists (is_open row.id) pool.auth_sessions ≡ false
      → 1 ≤ config.max_sessions_per_user
      → now ≤ utc_now + seconds 604800
      → (count_where (is_open row.id) left_here.auth_sessions ≡ 1)
        × (exists
              (λ (s : SessionRow).
                is_open row.id s
                && s.session_token_hash == token_hash ext (random_token bytes.session))
              left_here.auth_sessions
            ≡ true)
  unfolding count_where exists is_open
  store_session-one closed some_allowed in_time =
      let hash = token_hash ext (random_token bytes.session) in
      let (rest, first) =
        store_session-first ext now utc_now config persistent keys bytes row pool
          (opened-within closed some_allowed) (omega (arith, in_time)) in
      let sole = store_session-sole closed in
      let own = (nat_beq_iff row.id row.id).1 refl in
      let itself = (string_eq.decides hash hash).1 refl in
      (rw first (ground (arith, own, rw first at sole)), rw first (ground (arith, own, itself)))

  -- and nothing of the second factor changes
  pub store_session-codes : left_here.recovery_codes ≡ pool.recovery_codes
  unfolding recorded Sessions.prune record_log prepared Sessions.inserted
      Sessions.clear_login_failures Users.update_last_login Sessions.enforce_user_limit
  store_session-codes =
      let opened = stored_row ext now utc_now config persistent keys bytes row pool in
      let limited = Sessions.enforce_user_limit now opened row.id config.max_sessions_per_user in
      ap (λ (d : Db). d.recovery_codes)
        (record_session_revocation-logs limited.1 (some row.id) row.id "session_limit" limited.0)

  pub store_session-challenges : left_here.mfa_challenges ≡ pool.mfa_challenges
  unfolding recorded Sessions.prune record_log prepared Sessions.inserted
      Sessions.clear_login_failures Users.update_last_login Sessions.enforce_user_limit
  store_session-challenges =
      let opened = stored_row ext now utc_now config persistent keys bytes row pool in
      let limited = Sessions.enforce_user_limit now opened row.id config.max_sessions_per_user in
      ap (λ (d : Db). d.mfa_challenges)
        (record_session_revocation-logs limited.1 (some row.id) row.id "session_limit" limited.0)

  -- A login session that was opened: its answer and database, and its token's hash was in no row.
  pub create_login_session-done :
      {outcome : LoginSessionOutcome} {left : Db}
      → create_login_session ext now utc_now config persistent keys bytes row pool
        ≡ (ok outcome, left)
      → (outcome.session_token ≡ random_token bytes.session)
        × (left ≡ left_here)
        × IsFresh ext now utc_now config persistent keys bytes row pool
  unfolding create_login_session
  create_login_session-done {outcome = answer} h =
      let store = store_session ext now utc_now config persistent keys bytes row in
      let answers = λ (db : Db). fine (outcome utc_now config persistent bytes row db) in
      let (_, mid, stored, rest) = and_then-done (transaction store) (λ _. check answers) pool h in
      let (answered, same) = check-done answers mid rest in
      let (fresh, e) =
        store_session-done ext now utc_now config persistent keys bytes row pool
          (transaction-done store pool stored) in
      (ap LoginSessionOutcome.session_token (sym (ok_injective answered)), same ∙ e, fresh)
