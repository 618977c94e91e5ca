-- ===== src/Repo/StepUp.antt =====
-- backend/src/repositories/step_up.rs: the grants of step-up authentication.
use arc_admin.Prelude.{
  nat_eq, string_eq, Bool, Option, String, count_where, delete_where, err, exists, false,
  if◌then◌else◌, is_none, ltb, none, ok, some, update_where, ℕ, ◌&&◌, ◌+◌, ◌==◌, ◌||◌, ◌∷◌,
}
use arc_admin.Error.{Sql, unique_violation}
use arc_admin.Db.{Db, StepUpRow, seconds}

-- `token_hash` is UNIQUE in the table.
unfoldable pub create : Db → String → ℕ → ℕ → String → ℕ → Sql Db
create db token_hash session_id user_id scope expires_at =
    if exists (λ t. t.token_hash == token_hash) db.step_up_tokens
    then err unique_violation
    else ok (record db {
      step_up_tokens =
          record {
            token_hash = token_hash;
            session_id = session_id;
            user_id = user_id;
            scope = scope;
            expires_at = expires_at;
            consumed_at = none;
          }
          ∷ db.step_up_tokens;
    })

-- The WHERE of `consume`.
unfoldable pub is_live : ℕ → String → ℕ → ℕ → String → StepUpRow → Bool
is_live now token_hash session_id user_id scope t =
    t.token_hash == token_hash
    && t.session_id == session_id
    && t.user_id == user_id
    && t.scope == scope
    && is_none t.consumed_at
    && ltb now t.expires_at

unfoldable pub consume : ℕ → Db → String → ℕ → ℕ → String → Bool × Db
unfolding is_live
consume now db token_hash session_id user_id scope =
    let live = is_live now token_hash session_id user_id scope in
    (
      count_where live db.step_up_tokens == 1,
      record db {
        step_up_tokens =
            update_where live (λ t. record t { consumed_at = some now }) db.step_up_tokens;
      },
    )

-- A time more than a day before `now`; NULL is not.
abbrev day_old : ℕ → Option ℕ → Bool
day_old now none = false
day_old now (some at) = ltb (at + seconds 86400) now

unfoldable pub prune : ℕ → Db → Db
prune now db = record db {
  step_up_tokens =
      delete_where (λ t. day_old now (some t.expires_at) || day_old now t.consumed_at)
        db.step_up_tokens;
}
