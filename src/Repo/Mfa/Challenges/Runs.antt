-- ===== src/Repo/Mfa/Challenges/Runs.antt =====
-- Runs of the operations on the challenges of backend/src/repositories/mfa.rs: each challenge goes
-- through its state machine, and is never good for more than before.
use arc_admin.Prelude.{
  nat_eq, string_eq, Bool, Bool-cases, List, ap, arith, count-delete-le, count-update_same,
  count_where, inl, inr, is_some_and, nat_beq_iff, refl, update_where, ℕ, ◌+◌, ◌<◌, ◌==◌, ◌∙◌, ◌∷◌,
  ◌≡◌, ◌≤◌,
}
use arc_admin.Db.{Db, ChallengeRow}
use arc_admin.Repo.Mfa.Challenges.{
  consume_login_challenges_for_user, record_challenge_failure, consume_challenge, prune_challenges,
  failed_once, consumed, is_open_login, is_outdated,
}
use arc_admin.Repo.Mfa.Challenges.Attempts.{
  ChallengeStep, ChallengeSteps, issues, replaces, fails, consumes, prunes, rests, steps,
}
use arc_admin.Repo.Mfa.Challenges.Machine.{
  Lifecycle, unknown, closed, open_with, rank, fail_life, close_life, replay_step, life, find,
  has_id, HasUniqueIds, create_challenge-rows, ChallengeStep-life,
}

count-step :
    (q : ChallengeRow → Bool) (f : ChallengeRow → ChallengeRow) (id most : ℕ)
    (rows : List ChallengeRow)
    → ((c : ChallengeRow) → has_id id (f c) ≡ has_id id c)
    → count_where (has_id id) rows ≤ most
    → count_where (has_id id) (update_where q f rows) ≤ most
count-step q f id most rows same unique = rw (count-update_same (has_id id) q f rows same) unique

create-HasUniqueIds :
    (db next : Db) (c : ChallengeRow)
    → next.mfa_challenges ≡ c ∷ db.mfa_challenges
    → c.id ≡ db.next_challenge
    → next.next_challenge ≡ db.next_challenge + 1
    → HasUniqueIds db
    → HasUniqueIds next
unfolding count_where
create-HasUniqueIds db next c rows own more unique id =
    rw (rows, more) (ground (arith, unique id, own, nat_beq_iff c.id id))

-- the ids stay unique, and none is taken back
ChallengeStep-HasUniqueIds :
    {before after : Db}
    → ChallengeStep before after
    → HasUniqueIds before
    → HasUniqueIds after × (before.next_challenge ≤ after.next_challenge)
unfolding consume_login_challenges_for_user record_challenge_failure consume_challenge
    prune_challenges failed_once consumed
ChallengeStep-HasUniqueIds (issues db hash user_id kind persistent state expires_at {next} h)
      unique =
    let (c, rows, own, more) =
      create_challenge-rows db hash user_id kind persistent state expires_at h in
    (create-HasUniqueIds db next c rows own more unique, omega (arith, more))
ChallengeStep-HasUniqueIds (replaces now db user_id) unique = (
  λ id.
      count-step (is_open_login user_id) (consumed now) id _ db.mfa_challenges (λ c. refl)
        (unique id),
  omega arith,
)
ChallengeStep-HasUniqueIds (fails now db other) unique = (
  λ id. count-step _ (failed_once now) id _ db.mfa_challenges (λ c. refl) (unique id),
  omega arith,
)
ChallengeStep-HasUniqueIds (consumes now db other) unique =
    (λ id. count-step _ (consumed now) id _ db.mfa_challenges (λ c. refl) (unique id), omega arith)
ChallengeStep-HasUniqueIds (prunes now db) unique = (
  λ id. omega (arith, count-delete-le (has_id id) (is_outdated now) db.mfa_challenges, unique id),
  omega arith,
)

-- The machine of the challenge `id` along a run.
unfoldable pub replay :
    {before after : Db} → ℕ → ChallengeSteps before after → Lifecycle → Lifecycle
unfolding replay_step
replay id (rests db) s = s
replay id (steps first rest) s = replay id rest (replay_step id first s)

fail_life-rank : (s : Lifecycle) → rank (fail_life s) ≤ rank s
fail_life-rank unknown = omega arith
fail_life-rank closed = omega arith
fail_life-rank (open_with n) = ground arith

close_life-rank : (s : Lifecycle) → rank (close_life s) ≤ rank s
close_life-rank unknown = omega arith
close_life-rank closed = omega arith
close_life-rank (open_with n) = omega arith

replay_step-rank :
    {before after : Db} (id : ℕ) (step : ChallengeStep before after) (s : Lifecycle)
    → rank (replay_step id step s) ≤ rank s
unfolding replay_step
replay_step-rank id (issues db hash user_id kind persistent state expires_at h) s = omega arith
replay_step-rank id (replaces now db user_id) s =
    elim (Bool-cases (is_some_and (find db id) (is_open_login user_id))) [
      | inl hit ↦ rw hit (close_life-rank s)
      | inr miss ↦ rw miss (omega arith)
    ]
replay_step-rank id (fails now db other) s = elim (Bool-cases (id == other)) [
  | inl hit ↦ rw hit (fail_life-rank s)
  | inr miss ↦ rw miss (omega arith)
]
replay_step-rank id (consumes now db other) s = elim (Bool-cases (id == other)) [
  | inl hit ↦ rw hit (close_life-rank s)
  | inr miss ↦ rw miss (omega arith)
]
replay_step-rank id (prunes now db) s =
    elim (Bool-cases (is_some_and (find db id) (is_outdated now))) [
      | inl hit ↦ rw hit (omega arith)
      | inr miss ↦ rw miss (omega arith)
    ]

replay-rank :
    {before after : Db} (id : ℕ) (run : ChallengeSteps before after) (s : Lifecycle)
    → rank (replay id run s) ≤ rank s
unfolding replay
replay-rank id (rests db) s = omega arith
replay-rank id (steps first rest) s =
    omega (arith, replay-rank id rest (replay_step id first s), replay_step-rank id first s)

replay-life :
    {before after : Db} (id : ℕ)
    → HasUniqueIds before
    → id < before.next_challenge
    → (run : ChallengeSteps before after) → life after id ≡ replay id run (life before id)
unfolding replay
replay-life id unique given (rests db) = refl
replay-life id unique given (steps first rest) =
    let (unique', grows) = ChallengeStep-HasUniqueIds first unique in
    replay-life id unique' (omega (arith, given, grows)) rest
    ∙ ap (replay id rest) (ChallengeStep-life id unique given first)

-- From a table with unique ids, whatever sequence of operations works on it, a challenge whose id has
-- been given ends as its machine says: each failure of it takes an attempt and the last one closes it,
-- its use and a new login of its user close it, a clean-up forgets it when it is outdated, and nothing
-- else moves it. Its rank never grows: from closed it is closed or unknown, and from unknown unknown.
pub ChallengeSteps-life :
    {before after : Db} (id : ℕ)
    → HasUniqueIds before
    → id < before.next_challenge
    → (run : ChallengeSteps before after)
    → (life after id ≡ replay id run (life before id))
      × (rank (life after id) ≤ rank (life before id))
ChallengeSteps-life {before = before} id unique given run =
    let ends = replay-life id unique given run in
    let falls = replay-rank id run (life before id) in (ends, rw ends falls)
