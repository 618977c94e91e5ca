-- ===== src/Service/Mfa/Recovery/Spent.antt =====
-- What a login with a recovery code spends (`verify_recovery_login` of backend/src/services/mfa.rs).
use arc_admin.Prelude.{
  nat_eq, string_eq, >>=-eq-ok, Bool, Bool-cases, Option, String, ap, arith, count-update-lt,
  count_where, exists, exists-same, exists-update, false, fetch-true, inl, inr, is_none,
  nat_beq_iff, none, ok, ok_injective, ok_or, ok_or-eq-ok, ok_or-ok, refl, some, sym, true, ℕ, ◌&&◌,
  ◌+◌, ◌==◌, ◌∙◌, ◌≡◌, ◌≤◌,
}
use arc_admin.External.{External}
use arc_admin.Error.{Api, unauthorized}
use arc_admin.Db.{Db, ChallengeRow, LoginContext, RecoveryCodeRow, SessionRow, UserRow, seconds}
use arc_admin.Action.{and_then, check, transaction, and_then-done, check-done, transaction-done}
use arc_admin.Auth.Token.{token_hash}
use arc_admin.Repo.Users
use arc_admin.Repo.Sessions.{is_open}
use arc_admin.Repo.Sessions
use arc_admin.Repo.Sessions.Revocation.{revoke_all_for_user-closed}
use arc_admin.Repo.Mfa.Challenges
use arc_admin.Repo.Mfa.RecoveryCodes.{is_unused, consume_recovery_code}
use arc_admin.Repo.AuditLogs.{record_log}
use arc_admin.Service.Auth.{AuthSessionConfig, LoginSessionOutcome}
use arc_admin.Service.Auth.LoginSession.{TokenBytes}
use arc_admin.Service.Auth.Opened.{record_session_revocation-logs}
use arc_admin.Service.Auth.Sole.{store_session-one, store_session-codes, create_login_session-done}
use arc_admin.Service.Mfa.{settle, read_login, Passed, finish_login}
use arc_admin.Service.Mfa.Settled.{settle-done, refuse-err}
use arc_admin.Service.Mfa.Recovery.{
  find_code, consume_found, pass_recovery, check_recovery, verify_recovery_login,
}

-- some session has the hash of this token
has_hash : String → Db → Bool
has_hash hash db = exists (λ (s : SessionRow). s.session_token_hash == hash) db.auth_sessions

-- the recovery codes that a user can still use
abbrev pub unused : ℕ → Db → ℕ
unused user_id db =
    count_where (λ (c : RecoveryCodeRow). c.user_id == user_id && is_none c.used_at)
      db.recovery_codes

consume_recovery_code-unused :
    (now : ℕ) (db : Db) (user_id id : ℕ)
    → (consume_recovery_code now db user_id id).0 ≡ true
    → unused user_id (consume_recovery_code now db user_id id).1 + 1 ≤ unused user_id db
unfolding consume_recovery_code is_unused
consume_recovery_code-unused now db user_id id h =
    count-update-lt (λ (c : RecoveryCodeRow). c.user_id == user_id && is_none c.used_at)
      (is_unused id user_id) (λ c. record c { used_at = some now }) db.recovery_codes
      (λ c. ground arith) (λ c e. ground arith) h

consume_found-unused :
    (now : ℕ) (db : Db) (user_id : ℕ) (matching_id : Option ℕ)
    → (consume_found now db user_id matching_id).0 ≡ true
    → unused user_id (consume_found now db user_id matching_id).1 + 1 ≤ unused user_id db
consume_found-unused now db user_id none h = cc
consume_found-unused now db user_id (some id) h = consume_recovery_code-unused now db user_id id h

pass_recovery-rows :
    (now : ℕ) (db : Db) (challenge : ChallengeRow) {passed : ChallengeRow × LoginContext}
    {left : Db}
    → pass_recovery now db challenge ≡ ok (ok passed, left)
    → (passed.0 ≡ challenge)
      × (left.recovery_codes ≡ db.recovery_codes)
      × (exists (is_open challenge.user_id) left.auth_sessions ≡ false)
      × ((hash : String) → has_hash hash left ≡ has_hash hash db)
unfolding pass_recovery has_hash record_log Sessions.revoke_all_for_user
    Challenges.consume_challenge
pass_recovery-rows now db challenge h =
    let (login, _, done) = >>=-eq-ok (read_login challenge.state) _ h in
    let e = ok_injective done in
    let revoked =
      Sessions.revoke_all_for_user now (Challenges.consume_challenge now db challenge.id)
        challenge.user_id in
    let logs =
      record_session_revocation-logs revoked.1 (some challenge.user_id) challenge.user_id
        "mfa_recovery_code" revoked.0 in
    let same = ap (λ (r : Api (ChallengeRow × LoginContext) × Db). r.1) (sym e) in
    let closed =
      revoke_all_for_user-closed now (Challenges.consume_challenge now db challenge.id)
        challenge.user_id in
    (
      ap (λ (p : ChallengeRow × LoginContext). p.0)
          (sym (ok_injective (ap (λ (r : Api (ChallengeRow × LoginContext) × Db). r.0) e))),
      ap (λ (d : Db). d.recovery_codes) same ∙ ap (λ (d : Db). d.recovery_codes) logs,
      ap (λ (d : Db). exists (is_open challenge.user_id) d.auth_sessions) same
          ∙ ap (λ (d : Db). exists (is_open challenge.user_id) d.auth_sessions) logs
          ∙ closed,
      λ hash.
          ap (has_hash hash) same
          ∙ ap (has_hash hash) logs
          ∙ exists-update (λ (s : SessionRow). s.session_token_hash == hash)
              (is_open challenge.user_id) (Sessions.revoked now) db.auth_sessions
          ∙ exists-same _ (λ (s : SessionRow). s.session_token_hash == hash) db.auth_sessions
              (λ s. ground arith),
    )

consume_found-hash :
    (now : ℕ) (db : Db) (user_id : ℕ) (matching_id : Option ℕ) (hash : String)
    → has_hash hash (consume_found now db user_id matching_id).1 ≡ has_hash hash db
unfolding has_hash consume_recovery_code
consume_found-hash now db user_id none hash = refl
consume_found-hash now db user_id (some id) hash = refl

check_recovery-spent :
    (now : ℕ) (challenge_hash : String) (matching_id : Option ℕ) (db : Db)
    {passed : ChallengeRow × LoginContext} {left : Db}
    → check_recovery now challenge_hash matching_id db ≡ ok (ok passed, left)
    → (challenge : ChallengeRow) × (Challenges.challenge_for_update now db challenge_hash "login"
        ≡ some challenge)
      × (passed.0 ≡ challenge)
      × (unused challenge.user_id left + 1 ≤ unused challenge.user_id db)
      × (exists (is_open challenge.user_id) left.auth_sessions ≡ false)
      × ((hash : String) → has_hash hash left ≡ has_hash hash db)
unfolding check_recovery
check_recovery-spent now challenge_hash matching_id db h =
    let (challenge, there, rest) =
      ok_or-eq-ok (Challenges.challenge_for_update now db challenge_hash "login") _ _ h in
    let used = consume_found now db challenge.user_id matching_id in
    elim (Bool-cases used.0) [
      | inr missed ↦
          absurd
            (refuse-err now used.1 challenge "recovery_code" (ok_injective (rw missed at rest)))
      | inl hit ↦
          let (same, codes, closed, hashes) =
            pass_recovery-rows now used.1 challenge (rw hit at rest) in
          let fewer = consume_found-unused now db challenge.user_id matching_id hit in
          let remaining =
            ap
              (count_where
                (λ (c : RecoveryCodeRow). c.user_id == challenge.user_id && is_none c.used_at))
              codes in
          (
            challenge,
            there,
            same,
            omega (arith, fewer, remaining),
            closed,
            λ hash. hashes hash ∙ consume_found-hash now db challenge.user_id matching_id hash,
          )
    ]

find_by_id-id :
    (db : Db) (id : ℕ) (user : UserRow) → Users.find_by_id db id ≡ some user → user.id ≡ id
unfolding Users.find_by_id Users.is_present
find_by_id-id db id user h =
    let present = fetch-true (Users.is_present id) db.users h in
    (nat_beq_iff user.id id).0 (ground (arith, present))

module _ (ext : External) (now utc_now : ℕ) (config : AuthSessionConfig) (bytes : TokenBytes) where
  finish_login-one :
      (passed : Passed) (user_id : ℕ) (db : Db) {outcome : LoginSessionOutcome} {left : Db}
      → finish_login ext now utc_now config bytes passed db ≡ (ok outcome, left)
      → passed.user.id ≡ user_id
      → exists (is_open user_id) db.auth_sessions ≡ false
      → 1 ≤ config.max_sessions_per_user
      → now ≤ utc_now + seconds 604800
      → (unused user_id left ≡ unused user_id db)
        × (count_where (is_open user_id) left.auth_sessions ≡ 1)
        × (exists
              (λ (s : SessionRow).
                is_open user_id s && s.session_token_hash == token_hash ext outcome.session_token)
              left.auth_sessions
            ≡ true)
        × (has_hash (token_hash ext outcome.session_token) db ≡ false)
  unfolding has_hash
  finish_login-one passed user_id db h same closed some_allowed in_time =
      let keys = passed.login in
      let persistent = passed.challenge.persistent in
      let (token, ends, fresh) =
        create_login_session-done ext now utc_now config persistent keys bytes passed.user db h in
      let codes = store_session-codes ext now utc_now config persistent keys bytes passed.user db in
      let (one, there) =
        store_session-one ext now utc_now config persistent keys bytes passed.user db
          (rw same closed) some_allowed in_time in
      (
        ap (unused user_id) ends
            ∙ ap (count_where (λ (c : RecoveryCodeRow). c.user_id == user_id && is_none c.used_at))
                codes,
        rw (ends, sym same) one,
        rw (ends, sym same, token) there,
        rw token fresh,
      )

  -- A login with a recovery code that succeeds uses up one of the user's codes and ends every session
  -- of before: one session of the user is open, that of the token in the answer, which was in no row
  -- before. A user may have at least one session, and the database's time is at most a week ahead of
  -- the server's clock.
  pub verify_recovery_login-spent :
      (challenge_token recovery_code : String) (pool : Db) {outcome : LoginSessionOutcome}
      {left : Db}
      → 1 ≤ config.max_sessions_per_user
      → now ≤ utc_now + seconds 604800
      → verify_recovery_login ext now utc_now config bytes challenge_token recovery_code pool
        ≡ (ok outcome, left)
      → (challenge : ChallengeRow) × (Challenges.challenge_for_update now pool
            (token_hash ext challenge_token)
            "login"
          ≡ some challenge)
        × (unused challenge.user_id left + 1 ≤ unused challenge.user_id pool)
        × (count_where (is_open challenge.user_id) left.auth_sessions ≡ 1)
        × (exists
              (λ (s : SessionRow).
                is_open challenge.user_id s
                && s.session_token_hash == token_hash ext outcome.session_token)
              left.auth_sessions
            ≡ true)
        × (exists
              (λ (s : SessionRow). s.session_token_hash == token_hash ext outcome.session_token)
              pool.auth_sessions
            ≡ false)
  unfolding verify_recovery_login has_hash
  verify_recovery_login-spent challenge_token recovery_code pool {outcome} some_allowed in_time h =
      let hash = token_hash ext challenge_token in
      let signs = λ (passed : ChallengeRow × LoginContext) (user : UserRow).
        finish_login ext now utc_now config bytes
          (record { challenge = passed.0; login = passed.1; user = user }) in
      let reads = λ (passed : ChallengeRow × LoginContext).
        check λ db. ok_or (Users.find_by_id db passed.0.user_id) unauthorized in
      let goes_on = λ (matching_id : Option ℕ).
        and_then (settle (transaction (check_recovery now hash matching_id)))
          (λ passed. and_then (reads passed) (signs passed)) in
      let (matching_id, start, first, rest) =
        and_then-done (check (find_code ext now hash recovery_code)) goes_on pool h in
      let same_start = (check-done (find_code ext now hash recovery_code) pool first).1 in
      let (passed, mid, settled, rest') =
        and_then-done (settle (transaction (check_recovery now hash matching_id)))
          (λ passed. and_then (reads passed) (signs passed)) start rest in
      let (challenge, there, same, fewer, closed, hashes) =
        check_recovery-spent now hash matching_id start (
          transaction-done (check_recovery now hash matching_id) start
            (settle-done (transaction (check_recovery now hash matching_id)) start settled)) in
      let (user, mid', found, last) = and_then-done (reads passed) (signs passed) mid rest' in
      let (known, stays) =
        check-done (λ db. ok_or (Users.find_by_id db passed.0.user_id) unauthorized) mid found in
      let user_id =
        find_by_id-id mid passed.0.user_id user
          (ok_or-ok (Users.find_by_id mid passed.0.user_id) unauthorized known)
        ∙ ap ChallengeRow.user_id same in
      let (kept, one, here, fresh) =
        finish_login-one (record { challenge = passed.0; login = passed.1; user = user })
          challenge.user_id mid' last user_id
          (ap (λ (d : Db). exists (is_open challenge.user_id) d.auth_sessions) stays ∙ closed)
          some_allowed in_time in
      let after = ap (unused challenge.user_id) stays in
      let before = ap (unused challenge.user_id) same_start in
      let token = token_hash ext outcome.session_token in
      (
        challenge,
        ap (λ (d : Db). Challenges.challenge_for_update now d hash "login") (sym same_start)
            ∙ there,
        omega (arith, fewer, kept, after, before),
        one,
        here,
        ap (has_hash token) (sym same_start)
            ∙ sym (hashes token)
            ∙ ap (has_hash token) (sym stays)
            ∙ fresh,
      )
