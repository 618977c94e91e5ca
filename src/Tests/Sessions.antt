-- ===== src/Tests/Sessions.antt =====
-- Examples of the sessions and of the login's throttle.
use arc_admin.Prelude.{
  nat_eq, string_eq, [], all, arith, count_where, exists, false, none, refl, some, true, ℕ, ◌+◌,
  ◌==◌, ◌∷◌, ◌≡◌, ◌≤◌,
}
use arc_admin.Repo.Sessions.{locked_until, is_open, enforce_user_limit}
use arc_admin.Repo.Sessions.Limit.{HasUniqueIds, enforce_user_limit-count}
use arc_admin.Repo.Sessions.Throttle.{fail_at, locked_until-fail_at, in_window}
use arc_admin.Tests.Accounts.{accounts}
use arc_admin.Db.{LoginAttemptRow, Db, SessionRow}

in_the_window : all (in_window "root" 3 60 900 1000000) (2000000 ∷ 3000000 ∷ []) ≡ true
unfolding all
in_the_window = refl

no_row :
    exists (λ (a : LoginAttemptRow). a.identifier_hash == "root") accounts.login_attempts ≡ false
unfolding exists
no_row = refl

locked_until-fail_at_example :
    locked_until 4000000
      (fail_at "root" 3 60 900 (1000000 ∷ 2000000 ∷ 3000000 ∷ []) accounts)
      "root"
    ≡ some 903000000
locked_until-fail_at_example =
    locked_until-fail_at "root" 3 60 900 4000000 1000000 2000000 (3000000 ∷ []) accounts no_row
      in_the_window

abbrev session : ℕ → ℕ → SessionRow
session id created = record {
  id = id;
  user_id = 2;
  session_token_hash = "aa";
  csrf_token_hash = "bb";
  token_version = 0;
  idle_timeout_secs = 1800;
  persistent = false;
  created_at = created;
  last_seen_at = created;
  expires_at = 9000000000;
  revoked_at = none;
}

abbrev crowded : Db
crowded = record accounts { auth_sessions = session 3 30 ∷ session 2 20 ∷ session 1 10 ∷ [] }

ids_once : HasUniqueIds crowded
unfolding count_where
ids_once id = ground arith

enforce_user_limit-count_example :
    (count_where (is_open 2) (enforce_user_limit 50 crowded 2 2).1.auth_sessions ≤ 2)
    × (count_where (is_open 2) (enforce_user_limit 50 crowded 2 2).1.auth_sessions
          + (enforce_user_limit 50 crowded 2 2).0
        ≡ count_where (is_open 2) crowded.auth_sessions)
enforce_user_limit-count_example = enforce_user_limit-count 50 2 2 crowded ids_once
