-- ===== src/Repo/Sessions/Throttle.antt =====
-- The throttle of the login: a run of failures as `record_login_failure` of
-- backend/src/repositories/auth_sessions.rs counts them.
use arc_admin.Prelude.{
  nat_eq, string_eq, Bool, Bool-cases, List, Option, Option-cases, String, [], all, ap, arith,
  exists, false, fetch-none, fetch_optional, if◌then◌else◌, inl, inr, is_some, leb, length, ltb,
  none, refl, some, true, update_where, ℕ, ◌+◌, ◌==◌, ◌∙◌, ◌∷◌, ◌≡◌,
}
use mathlib.Core.Option
use package.text.Mathlib.TextEquality.{eq_iff}
use arc_admin.Db.{Db, LoginAttemptRow, seconds}
use arc_admin.Repo.Sessions.{
  record_login_failure, next_failure, first_failure, locked_until, attempt_lock, if_later,
}

module _ (identifier : String) (max_failures window_secs lockout_secs : ℕ) where
  abbrev same : LoginAttemptRow → Bool
  same a = a.identifier_hash == identifier

  -- One failure after the other, at the given times.
  abbrev pub fail_at : List ℕ → Db → Db
  fail_at [] db = db
  fail_at (t ∷ times) db =
      fail_at times (record_login_failure t db identifier max_failures window_secs lockout_secs).1

  abbrev row_after : ℕ → Option LoginAttemptRow → LoginAttemptRow
  row_after t none = first_failure t identifier
  row_after t (some a) = next_failure t max_failures window_secs lockout_secs a

  fetch-exists :
      (rows : List LoginAttemptRow) → exists same rows ≡ is_some (fetch_optional same rows)
  unfolding exists fetch_optional
  fetch-exists [] = refl
  fetch-exists (a ∷ rows) = ground (arith, fetch-exists rows)

  fetch-next :
      (t : ℕ) (rows : List LoginAttemptRow)
      → fetch_optional same
          (update_where same (next_failure t max_failures window_secs lockout_secs) rows)
        ≡ Option.map
            (next_failure t max_failures window_secs lockout_secs)
            (fetch_optional same rows)
  unfolding fetch_optional update_where next_failure
  fetch-next t [] = refl
  fetch-next t (a ∷ rows) = elim (Bool-cases (same a)) [
    | inl hit ↦ rw hit (rw hit)
    | inr miss ↦ rw miss (rw miss (fetch-next t rows))
  ]

  fetch-failure :
      (t : ℕ) (db : Db)
      → fetch_optional same
          (record_login_failure t db identifier max_failures window_secs
            lockout_secs).1.login_attempts
        ≡ some (row_after t (fetch_optional same db.login_attempts))
  unfolding record_login_failure
  fetch-failure t db = elim (Option-cases (fetch_optional same db.login_attempts)) [
    | inl missing ↦
        let new : exists same db.login_attempts ≡ false =
          fetch-exists db.login_attempts ∙ ground (arith, missing) in
        rw (new, missing) (unfold fetch_optional in ground (arith, eq_iff identifier identifier))
    | inr (a, found) ↦
        let old : exists same db.login_attempts ≡ true =
          fetch-exists db.login_attempts ∙ ground (arith, found) in
        rw (old, fetch-next t db.login_attempts, found)
  ]

  -- before the window that a failure at `start` opened has run out
  abbrev pub in_window : ℕ → ℕ → Bool
  in_window start t = ltb t (start + seconds window_secs)

  abbrev pub last_of : ℕ → List ℕ → ℕ
  last_of t [] = t
  last_of t (u ∷ times) = last_of u times

  abbrev pub lock_of : ℕ → ℕ → Option ℕ
  lock_of count t = if leb max_failures count then some (t + seconds lockout_secs) else none

  next-in_window :
      (start t : ℕ) (a : LoginAttemptRow)
      → a.window_started_at ≡ start
      → in_window start t ≡ true
      → next_failure t max_failures window_secs lockout_secs a ≡ record a {
        failure_count = a.failure_count + 1;
        window_started_at = start;
        locked_until = lock_of (a.failure_count + 1) t;
        updated_at = t;
      }
  unfolding next_failure
  next-in_window start t a e within =
      let still : leb (start + seconds window_secs) t ≡ false = ground arith in rw (e, still)

  fail_at-lock :
      (start t : ℕ) (times : List ℕ) (a : LoginAttemptRow) (db : Db)
      → a.window_started_at ≡ start
      → fetch_optional same db.login_attempts ≡ some a
      → all (in_window start) (t ∷ times) ≡ true
      → (b : LoginAttemptRow) × (fetch_optional same (fail_at (t ∷ times) db).login_attempts
          ≡ some b)
        × (b.locked_until ≡ lock_of (a.failure_count + 1 + length times) (last_of t times))
  unfolding all
  fail_at-lock start t [] a db e found within =
      let next = next-in_window start t a e (ground arith) in
      let none_more : a.failure_count + 1 ≡ a.failure_count + 1 + length {A = ℕ} [] = omega arith in
      (
        row_after t (some a),
        fetch-failure t db ∙ rw found,
        ap LoginAttemptRow.locked_until next ∙ ap (λ count. lock_of count t) none_more,
      )
  fail_at-lock start t (u ∷ times) a db e found within =
      let next = next-in_window start t a e (ground arith) in
      let later = (record_login_failure t db identifier max_failures window_secs lockout_secs).1 in
      let here : fetch_optional same later.login_attempts ≡ some (row_after t (some a)) =
        fetch-failure t db ∙ rw found in
      let (b, stored, locked) =
        fail_at-lock start u times (row_after t (some a)) later
          (ap LoginAttemptRow.window_started_at next) here (ground arith) in
      let counted : (row_after t (some a)).failure_count + 1 + length times
          ≡ a.failure_count + 1 + length (u ∷ times) =
        omega (arith, ap LoginAttemptRow.failure_count next) in
      (b, stored, locked ∙ ap (λ count. lock_of count (last_of u times)) counted)

  -- For an identifier without a row, after failures at `start`, `t` and `times`, all in the window of
  -- the first: the identifier is locked exactly if there are at least `max_failures` of them, for
  -- `lockout_secs` from the last.
  pub locked_until-fail_at :
      (now start t : ℕ) (times : List ℕ) (db : Db)
      → exists same db.login_attempts ≡ false
      → all (in_window start) (t ∷ times) ≡ true
      → locked_until now (fail_at (start ∷ t ∷ times) db) identifier
        ≡ if_later now (lock_of (2 + length times) (last_of t times))
  unfolding locked_until
  locked_until-fail_at now start t times db new within =
      let missing = fetch-none same same db.login_attempts (λ a h. h) new in
      let later =
        (record_login_failure start db identifier max_failures window_secs lockout_secs).1 in
      let first : fetch_optional same later.login_attempts ≡ some (first_failure start identifier) =
        fetch-failure start db ∙ rw missing in
      let (b, stored, locked) =
        fail_at-lock start t times (first_failure start identifier) later refl first within in
      ap (attempt_lock now) stored
      ∙ ap (if_later now) (locked ∙ ap (λ count. lock_of count (last_of t times)) (omega arith))
