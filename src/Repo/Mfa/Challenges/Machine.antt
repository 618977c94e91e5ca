-- ===== src/Repo/Mfa/Challenges/Machine.antt =====
-- A challenge of backend/src/repositories/mfa.rs as a state machine: what each operation on the table
-- makes of the challenge with one id.
use arc_admin.Prelude.{
  nat_eq, string_eq, Bool, Bool-cases, List, Option, Option-cases, String, [], ap, arith,
  count_where, delete_where, exists, fail_if-eq-ok, false, fetch-count_none, fetch-true,
  fetch-update, fetch_optional, if◌then◌else◌, inl, inr, is_none, is_some_and, leb, ltb,
  nat_beq_iff, none, ok, ok_injective, refl, some, sym, true, update_where, ℕ, ◌&&◌, ◌+◌, ◌-◌, ◌<◌,
  ◌==◌, ◌∙◌, ◌∷◌, ◌≡◌, ◌≤◌,
}
use arc_admin.Db.{Db, ChallengeRow, ChallengeState}
use arc_admin.Repo.Mfa.Challenges.{
  create_challenge, consume_login_challenges_for_user, record_challenge_failure, consume_challenge,
  prune_challenges, failed_once, consumed, is_open_login, is_login_kind, is_outdated,
}
use arc_admin.Repo.Mfa.Challenges.Attempts.{
  ChallengeStep, issues, replaces, fails, consumes, prunes,
}

-- No such challenge; one that is consumed; one with so many attempts left.
pub data Lifecycle : Type 0 where
  unknown closed : Lifecycle
  open_with : ℕ → Lifecycle

-- How much a challenge is still good for.
abbrev pub rank : Lifecycle → ℕ
rank unknown = 0
rank closed = 1
rank (open_with n) = n + 2

-- A failure takes an attempt, and the last one closes.
abbrev pub fail_life : Lifecycle → Lifecycle
fail_life unknown = unknown
fail_life closed = closed
fail_life (open_with n) = if leb n 1 then closed else open_with (n - 1)

abbrev pub close_life : Lifecycle → Lifecycle
close_life unknown = unknown
close_life closed = closed
close_life (open_with n) = closed

abbrev pub has_id : ℕ → ChallengeRow → Bool
has_id id c = c.id == id

unfoldable pub find : Db → ℕ → Option ChallengeRow
find db id = fetch_optional (has_id id) db.mfa_challenges

abbrev pub status_of : Option ChallengeRow → Lifecycle
status_of none = unknown
status_of (some c) =
    if is_none c.consumed_at then open_with (c.max_attempts - c.attempt_count) else closed

unfoldable pub life : Db → ℕ → Lifecycle
unfolding find
life db id = status_of (find db id)

-- What the machine of the challenge `id` does at an operation: a failure and a consumption of another
-- id, and a new challenge, leave it; a new login closes it where it is the user's open one; the
-- clean-up forgets it where it is outdated.
unfoldable pub replay_step :
    {before after : Db} → ℕ → ChallengeStep before after → Lifecycle → Lifecycle
unfolding find
replay_step id (issues db hash user_id kind persistent state expires_at h) s = s
replay_step id (replaces now db user_id) s =
    if is_some_and (find db id) (is_open_login user_id) then close_life s else s
replay_step id (fails now db other) s = if id == other then fail_life s else s
replay_step id (consumes now db other) s = if id == other then close_life s else s
replay_step id (prunes now db) s = if is_some_and (find db id) (is_outdated now) then unknown else s

-- What the table's key keeps: an id that was given stands in one row at most, any other in none.
abbrev pub HasUniqueIds : Db → Type 0
HasUniqueIds db =
    (id : ℕ)
    → count_where (has_id id) db.mfa_challenges ≤ (if ltb id db.next_challenge then 1 else 0)

failed_once-life :
    (now : ℕ) (c : ChallengeRow)
    → status_of (some (failed_once now c)) ≡ fail_life (status_of (some c))
unfolding failed_once
failed_once-life now c = elim (Option-cases c.consumed_at) [
  | inr (at, used) ↦ rw used (ground arith)
  | inl open_row ↦ elim (Bool-cases (leb c.max_attempts (c.attempt_count + 1))) [
    | inl last ↦
        let one : leb (c.max_attempts - c.attempt_count) 1 ≡ true = ground (arith, last) in
        rw (open_row, last, one)
    | inr more ↦
        let several : leb (c.max_attempts - c.attempt_count) 1 ≡ false = ground (arith, more) in
        let less : c.max_attempts - (c.attempt_count + 1) ≡ c.max_attempts - c.attempt_count - 1 =
          omega arith in
        rw (open_row, more, several, less)
  ]
]

consumed-life :
    (now : ℕ) (c : ChallengeRow)
    → status_of (some (consumed now c)) ≡ close_life (status_of (some c))
unfolding consumed
consumed-life now c = elim (Option-cases c.consumed_at) [
  | inr (at, used) ↦ rw used refl
  | inl open_row ↦ rw open_row refl
]

-- an UPDATE that keeps the ids moves the row that it hits
update-life :
    (q : ChallengeRow → Bool) (f : ChallengeRow → ChallengeRow) (g : Lifecycle → Lifecycle) (id : ℕ)
    (rows : List ChallengeRow)
    → ((c : ChallengeRow) → has_id id (f c) ≡ has_id id c)
    → ((c : ChallengeRow) → status_of (some (f c)) ≡ g (status_of (some c)))
    → status_of (fetch_optional (has_id id) (update_where q f rows)) ≡ (
        if is_some_and (fetch_optional (has_id id) rows) q
        then g (status_of (fetch_optional (has_id id) rows))
        else status_of (fetch_optional (has_id id) rows))
update-life q f g id rows same moves =
    rw (fetch-update (has_id id) q f rows same)
      (elim (Option-cases (fetch_optional (has_id id) rows)) [
        | inl missing ↦ rw missing refl
        | inr (c, found) ↦ elim (Bool-cases (q c)) [
          | inl hit ↦ rw (found, hit) (moves c)
          | inr miss ↦ rw (found, miss) refl
        ]
      ])

-- an UPDATE of the row with one id
update_one-life :
    (f : ChallengeRow → ChallengeRow) (g : Lifecycle → Lifecycle) (id other : ℕ)
    (rows : List ChallengeRow)
    → ((c : ChallengeRow) → has_id id (f c) ≡ has_id id c)
    → ((c : ChallengeRow) → status_of (some (f c)) ≡ g (status_of (some c)))
    → g unknown ≡ unknown
    → status_of (fetch_optional (has_id id) (update_where (has_id other) f rows)) ≡ (
        if id == other
        then g (status_of (fetch_optional (has_id id) rows))
        else status_of (fetch_optional (has_id id) rows))
update_one-life f g id other rows same moves nothing =
    rw (update-life (has_id other) f g id rows same moves)
      (elim (Option-cases (fetch_optional (has_id id) rows)) [
        | inl missing ↦ elim (Bool-cases (id == other)) [
          | inl e ↦ rw (missing, e, nothing)
          | inr e ↦ rw (missing, e)
        ]
        | inr (c, found) ↦
            let own = (nat_beq_iff c.id id).0 (fetch-true (has_id id) rows found) in rw (found, own)
      ])

-- a DELETE takes the only row with the id, or keeps it
fetch-delete :
    (p q : ChallengeRow → Bool) (rows : List ChallengeRow)
    → count_where p rows ≤ 1
    → fetch_optional p (delete_where q rows)
      ≡ (if is_some_and (fetch_optional p rows) q then none else fetch_optional p rows)
unfolding fetch_optional delete_where count_where
fetch-delete p q [] unique = refl
fetch-delete p q (c ∷ rows) unique = elim (Bool-cases (p c)) [
  | inl hit ↦ elim (Bool-cases (q c)) [
    | inr kept ↦ rw (kept, hit, kept)
    | inl taken ↦
        let nothing = fetch-count_none p rows (ground (arith, unique, hit)) in
        let rest = fetch-delete p q rows (ground (arith, unique, hit)) in
        rw (taken, hit, rest, nothing, taken)
  ]
  | inr miss ↦ elim (Bool-cases (q c)) [
    | inr kept ↦ rw (kept, miss) (fetch-delete p q rows (ground (arith, unique, miss)))
    | inl taken ↦ rw (taken, miss) (fetch-delete p q rows (ground (arith, unique, miss)))
  ]
]

delete-life :
    (q : ChallengeRow → Bool) (id : ℕ) (rows : List ChallengeRow)
    → count_where (has_id id) rows ≤ 1
    → status_of (fetch_optional (has_id id) (delete_where q rows)) ≡ (
        if is_some_and (fetch_optional (has_id id) rows) q
        then unknown
        else status_of (fetch_optional (has_id id) rows))
delete-life q id rows unique =
    rw (fetch-delete (has_id id) q rows unique)
      (elim (Bool-cases (is_some_and (fetch_optional (has_id id) rows) q)) [
        | inl hit ↦ rw hit
        | inr miss ↦ rw miss
      ])

-- what a challenge that is created leaves of the table
pub create_challenge-rows :
    (db : Db) (hash : String) (user_id : ℕ) (kind : String) (persistent : Bool)
    (state : ChallengeState) (expires_at : ℕ) {next : Db}
    → create_challenge db hash user_id kind persistent state expires_at ≡ ok next
    → (c : ChallengeRow) × (next.mfa_challenges ≡ c ∷ db.mfa_challenges)
      × (c.id ≡ db.next_challenge)
      × (next.next_challenge ≡ db.next_challenge + 1)
unfolding create_challenge
create_challenge-rows db hash user_id kind persistent state expires_at h =
    let (_, rest) =
      fail_if-eq-ok (exists (λ (c : ChallengeRow). c.token_hash == hash) db.mfa_challenges) _ _ h in
    let (_, done) =
      fail_if-eq-ok (is_login_kind kind && exists (is_open_login user_id) db.mfa_challenges) _ _
        rest in
    let e = sym (ok_injective done) in
    (_, ap Db.mfa_challenges e, refl, ap Db.next_challenge e ∙ omega arith)

create-life :
    (c : ChallengeRow) (rows : List ChallengeRow) (id : ℕ)
    → id < c.id
    → status_of (fetch_optional (has_id id) (c ∷ rows))
      ≡ status_of (fetch_optional (has_id id) rows)
unfolding fetch_optional
create-life c rows id older = let other : (c.id == id) ≡ false = ground arith in rw other

-- Every operation does with a challenge that is there what the machine does.
pub ChallengeStep-life :
    {before after : Db} (id : ℕ)
    → HasUniqueIds before
    → id < before.next_challenge
    → (step : ChallengeStep before after) → life after id ≡ replay_step id step (life before id)
unfolding life replay_step consume_login_challenges_for_user record_challenge_failure
    consume_challenge prune_challenges failed_once consumed
ChallengeStep-life id unique given (issues db hash user_id kind persistent state expires_at h) =
    let (c, rows, own, _) =
      create_challenge-rows db hash user_id kind persistent state expires_at h in
    rw rows (create-life c db.mfa_challenges id (rw (sym own) at given))
ChallengeStep-life id unique given (replaces now db user_id) =
    update-life (is_open_login user_id) (consumed now) close_life id db.mfa_challenges (λ c. refl)
      (consumed-life now)
ChallengeStep-life id unique given (fails now db other) =
    update_one-life (failed_once now) fail_life id other db.mfa_challenges (λ c. refl)
      (failed_once-life now) refl
ChallengeStep-life id unique given (consumes now db other) =
    update_one-life (consumed now) close_life id other db.mfa_challenges (λ c. refl)
      (consumed-life now) refl
ChallengeStep-life id unique given (prunes now db) =
    delete-life (is_outdated now) id db.mfa_challenges (ground (arith, unique id, given))
