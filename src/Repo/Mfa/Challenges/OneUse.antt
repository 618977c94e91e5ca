-- ===== src/Repo/Mfa/Challenges/OneUse.antt =====
-- What is refused for good: a challenge that was consumed, and one whose attempts are used up
-- (backend/src/repositories/mfa.rs).
use arc_admin.Prelude.{
  nat_eq, string_eq, Bool, Bool-cases, List, String, [], all, ap, arith, count_where, fetch-count,
  fetch-true, fetch_optional, inl, inr, is_some, leb, length, ltb, nat_beq_iff, none, not, refl,
  some, some_injective, suc, true, update_where, ℕ, ◌&&◌, ◌+◌, ◌==◌, ◌||◌, ◌∙◌, ◌∷◌, ◌≡◌, ◌≤◌,
}
use arc_admin.Db.{Db, ChallengeRow}
use arc_admin.Repo.Mfa.Challenges.{
  challenge_for_update, consume_challenge, consumed, record_challenge_failure, failed_once,
  is_live_challenge,
}

-- What UNIQUE (token_hash) keeps.
abbrev pub HasUniqueHashes : Db → Type 0
HasUniqueHashes db =
    (hash : String) → count_where (λ (c : ChallengeRow). c.token_hash == hash) db.mfa_challenges ≤ 1

-- a row with the hash is the challenge of the id, and is closed after `left` more failures
abbrev closes_after : String → ℕ → ℕ → ChallengeRow → Bool
closes_after hash id left c =
    not (c.token_hash == hash)
    || c.id == id
      && (is_some c.consumed_at || ltb 0 left && leb c.max_attempts (c.attempt_count + left))

closed-none :
    (now : ℕ) (hash kind : String) (id : ℕ) (rows : List ChallengeRow)
    → all (closes_after hash id 0) rows ≡ true
    → fetch_optional (λ (c : ChallengeRow). is_live_challenge now hash c && c.kind == kind) rows
      ≡ none
unfolding all fetch_optional is_live_challenge
closed-none now hash kind id [] h = refl
closed-none now hash kind id (c ∷ rows) h = ground (arith, closed-none now hash kind id rows)

failed-closes :
    (now : ℕ) (hash : String) (id left : ℕ) (rows : List ChallengeRow)
    → all (closes_after hash id (suc left)) rows ≡ true
    → all
        (closes_after hash id left)
        (update_where (λ (c : ChallengeRow). c.id == id) (failed_once now) rows)
      ≡ true
unfolding all update_where failed_once
failed-closes now hash id left [] h = refl
failed-closes now hash id left (c ∷ rows) h = ground (arith, failed-closes now hash id left rows)

consumed-closes :
    (now : ℕ) (hash : String) (id : ℕ) (rows : List ChallengeRow)
    → all (λ (c : ChallengeRow). not (c.token_hash == hash) || c.id == id) rows ≡ true
    → all
        (closes_after hash id 0)
        (update_where (λ (c : ChallengeRow). c.id == id) (consumed now) rows)
      ≡ true
unfolding all update_where consumed
consumed-closes now hash id [] h = refl
consumed-closes now hash id (c ∷ rows) h = ground (arith, consumed-closes now hash id rows)

module _ (p : ChallengeRow → Bool) (hash : String) where
  none_with :
      (rows : List ChallengeRow)
      → count_where (λ (c : ChallengeRow). c.token_hash == hash) rows ≡ 0
      → all (λ (c : ChallengeRow). not (c.token_hash == hash) || p c) rows ≡ true
  unfolding all count_where
  none_with [] h = refl
  none_with (c ∷ rows) h = ground (arith, none_with rows)

  -- with unique hashes the row that a look-up finds is the only one of its hash
  found-only :
      (now : ℕ) (kind : String) (rows : List ChallengeRow) {c : ChallengeRow}
      → count_where (λ (c : ChallengeRow). c.token_hash == hash) rows ≤ 1
      → fetch_optional (λ (c : ChallengeRow). is_live_challenge now hash c && c.kind == kind) rows
        ≡ some c
      → p c ≡ true
      → all (λ (o : ChallengeRow). not (o.token_hash == hash) || p o) rows ≡ true
  unfolding all count_where fetch_optional is_live_challenge
  found-only now kind [] {c} unique h e = refl
  found-only now kind (o ∷ rows) {c} unique h e =
      let live = λ (c : ChallengeRow). is_live_challenge now hash c && c.kind == kind in
      elim (Bool-cases (live o)) [
        | inl hit ↦
            let same : o ≡ c = some_injective (rw hit at h) in
            let passes : p o ≡ true = ap p same ∙ e in ground (arith, hit, passes, none_with rows)
        | inr miss ↦
            let later : fetch_optional live rows ≡ some c = rw miss at h in
            let there =
              fetch-count live (λ (c : ChallengeRow). c.token_hash == hash) rows later
                (ground (arith, fetch-true live rows later)) in
            ground (arith, there, found-only now kind rows {c = c} (omega arith) later e)
      ]

-- A challenge that was found and consumed is found no more, at any time and as whatever kind.
pub consume_challenge-none :
    (now later : ℕ) (hash kind other_kind : String) (db : Db) {c : ChallengeRow}
    → HasUniqueHashes db
    → challenge_for_update now db hash kind ≡ some c
    → challenge_for_update later (consume_challenge now db c.id) hash other_kind ≡ none
unfolding challenge_for_update consume_challenge
consume_challenge-none now later hash kind other_kind db {c} unique found =
    closed-none later hash other_kind c.id _ (
      consumed-closes now hash c.id db.mfa_challenges (
        found-only (λ o. o.id == c.id) hash now kind db.mfa_challenges (unique hash) found
          ((nat_beq_iff c.id c.id).1 refl)))

-- A row of failures of one challenge, at these times.
unfoldable pub fail_times : List ℕ → Db → ℕ → Db
fail_times [] db id = db
fail_times (now ∷ times) db id = fail_times times (record_challenge_failure now db id).1 id

fail_times-closes :
    (times : List ℕ) (db : Db) (hash : String) (id : ℕ)
    → all (closes_after hash id (length times)) db.mfa_challenges ≡ true
    → all (closes_after hash id 0) (fail_times times db id).mfa_challenges ≡ true
unfolding fail_times record_challenge_failure
fail_times-closes [] db hash id h = h
fail_times-closes (now ∷ times) db hash id h =
    fail_times-closes times (record_challenge_failure now db id).1 hash id
      (failed-closes now hash id (length times) db.mfa_challenges h)

-- As many failures of an open challenge as it has attempts left, and any more, close it for good.
pub fail_times-none :
    (now later : ℕ) (times : List ℕ) (hash kind other_kind : String) (db : Db) {c : ChallengeRow}
    → HasUniqueHashes db
    → challenge_for_update now db hash kind ≡ some c
    → c.max_attempts ≤ c.attempt_count + length times
    → 1 ≤ length times
    → challenge_for_update later (fail_times times db c.id) hash other_kind ≡ none
unfolding challenge_for_update
fail_times-none now later times hash kind other_kind db {c} unique found enough some_failed =
    closed-none later hash other_kind c.id _ (
      fail_times-closes times db hash c.id (
        found-only
          (λ o.
            o.id == c.id
            && (is_some o.consumed_at
                || ltb 0 (length times) && leb o.max_attempts (o.attempt_count + length times)))
          hash now kind db.mfa_challenges (unique hash) found
          (ground (arith, nat_beq_iff c.id c.id))))
