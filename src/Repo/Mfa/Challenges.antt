-- ===== src/Repo/Mfa/Challenges.antt =====
-- The challenges of a login's second factor and of a registration: backend/src/repositories/mfa.rs.
pub mod Attempts
pub mod OneUse
pub mod Machine
pub mod Runs
use arc_admin.Prelude.{
  nat_eq, string_eq, Bool, Option, String, count_where, delete_where, exists, fail_if, false,
  fetch_optional, if◌then◌else◌, is_none, leb, ltb, none, ok, some, suc, update_where, ℕ, ◌&&◌, ◌+◌,
  ◌==◌, ◌>>=◌, ◌>>◌, ◌||◌, ◌∷◌,
}
use arc_admin.Error.{Sql, unique_violation}
use arc_admin.Db.{Db, ChallengeRow, ChallengeState, seconds}

-- `kind IN ('login', 'totp_enrollment', 'passkey_authentication')`
abbrev pub is_login_kind : String → Bool
is_login_kind kind =
    kind == "login" || kind == "totp_enrollment" || kind == "passkey_authentication"

-- The user's challenges that a login has open: at most one by the table's partial index.
unfoldable pub is_open_login : ℕ → ChallengeRow → Bool
is_open_login user_id c = c.user_id == user_id && (is_none c.consumed_at && is_login_kind c.kind)

-- The columns that have defaults are attempt_count and max_attempts.
abbrev pub new_challenge : ℕ → String → ℕ → String → Bool → ChallengeState → ℕ → ChallengeRow
new_challenge id token_hash user_id kind persistent state expires_at = record {
  id = id;
  token_hash = token_hash;
  user_id = user_id;
  kind = kind;
  persistent = persistent;
  state = state;
  attempt_count = 0;
  max_attempts = 5;
  expires_at = expires_at;
  consumed_at = none;
}

unfoldable pub create_challenge : Db → String → ℕ → String → Bool → ChallengeState → ℕ → Sql Db
unfolding is_open_login
create_challenge db token_hash user_id kind persistent state expires_at = do
  fail_if (exists (λ (c : ChallengeRow). c.token_hash == token_hash) db.mfa_challenges)
      unique_violation
  fail_if (is_login_kind kind && exists (is_open_login user_id) db.mfa_challenges) unique_violation
  ok (record db {
    mfa_challenges =
        new_challenge db.next_challenge token_hash user_id kind persistent state expires_at
        ∷ db.mfa_challenges;
    next_challenge = suc db.next_challenge;
  })

unfoldable pub consumed : ℕ → ChallengeRow → ChallengeRow
consumed now c = record c { consumed_at = some now }

unfoldable pub consume_login_challenges_for_user : ℕ → Db → ℕ → ℕ × Db
unfolding is_open_login consumed
consume_login_challenges_for_user now db user_id = (
  count_where (is_open_login user_id) db.mfa_challenges,
  record db {
    mfa_challenges = update_where (is_open_login user_id) (consumed now) db.mfa_challenges;
  },
)

-- `consumed_at IS NULL AND expires_at > now()`
unfoldable pub is_live_challenge : ℕ → String → ChallengeRow → Bool
is_live_challenge now token_hash c =
    c.token_hash == token_hash && (is_none c.consumed_at && ltb now c.expires_at)

-- `challenge` reads the same; `challenge_for_update` locks the row too.
unfoldable pub challenge : ℕ → Db → String → String → Option ChallengeRow
unfolding is_live_challenge
challenge now db token_hash expected_kind =
    fetch_optional
      (λ (c : ChallengeRow). is_live_challenge now token_hash c && c.kind == expected_kind)
      db.mfa_challenges

unfoldable pub challenge_for_update : ℕ → Db → String → String → Option ChallengeRow
unfolding is_live_challenge
challenge_for_update now db token_hash expected_kind =
    fetch_optional
      (λ (c : ChallengeRow). is_live_challenge now token_hash c && c.kind == expected_kind)
      db.mfa_challenges

abbrev kind_of : Option ChallengeRow → Option String
kind_of none = none
kind_of (some c) = some c.kind

unfoldable pub challenge_kind : ℕ → Db → String → Option String
unfolding is_live_challenge
challenge_kind now db token_hash =
    kind_of (fetch_optional (is_live_challenge now token_hash) db.mfa_challenges)

unfoldable pub failed_once : ℕ → ChallengeRow → ChallengeRow
failed_once now c = record c {
  attempt_count = c.attempt_count + 1;
  consumed_at = if leb c.max_attempts (c.attempt_count + 1) then some now else c.consumed_at;
}

-- RETURNING attempt_count >= max_attempts, of the new row.
abbrev is_exhausted : Option ChallengeRow → Bool
is_exhausted none = false
is_exhausted (some c) = leb c.max_attempts c.attempt_count

unfoldable pub record_challenge_failure : ℕ → Db → ℕ → Bool × Db
unfolding failed_once
record_challenge_failure now db challenge_id =
    let rows =
      update_where (λ (c : ChallengeRow). c.id == challenge_id) (failed_once now)
        db.mfa_challenges in
    (
      is_exhausted (fetch_optional (λ (c : ChallengeRow). c.id == challenge_id) rows),
      record db { mfa_challenges = rows },
    )

unfoldable pub consume_challenge : ℕ → Db → ℕ → Db
unfolding consumed
consume_challenge now db challenge_id = record db {
  mfa_challenges =
      update_where (λ (c : ChallengeRow). c.id == challenge_id) (consumed now) db.mfa_challenges;
}

abbrev consumed_before : ℕ → Option ℕ → Bool
consumed_before limit none = false
consumed_before limit (some at) = ltb (at + seconds 86400) limit

-- The WHERE of the clean-up.
unfoldable pub is_outdated : ℕ → ChallengeRow → Bool
is_outdated now c = ltb (c.expires_at + seconds 86400) now || consumed_before now c.consumed_at

unfoldable pub prune_challenges : ℕ → Db → Db
unfolding is_outdated
prune_challenges now db = record db {
  mfa_challenges = delete_where (is_outdated now) db.mfa_challenges;
}
