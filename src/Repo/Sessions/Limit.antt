-- ===== src/Repo/Sessions/Limit.antt =====
-- The limit on a user's open sessions: `enforce_user_limit` of
-- backend/src/repositories/auth_sessions.rs.
use arc_admin.Prelude.{
  nat_eq, string_eq, Bool, Bool-cases, List, [], arith, count-exists, count-weaken, count_where,
  exists, exists-none_weaken, false, inl, inr, not, refl, true, update_where, ℕ, ◌&&◌, ◌+◌, ◌<◌,
  ◌==◌, ◌∷◌, ◌≡◌, ◌≤◌, ◌⊎◌,
}
use arc_admin.Db.{Db, SessionRow}
use arc_admin.Repo.Sessions.{is_open, is_newer, is_within_limit, enforce_user_limit, revoked}

-- The key of the table: an id stands in one row at most.
abbrev pub HasUniqueIds : Db → Type 0
HasUniqueIds db = (id : ℕ) → count_where (λ (s : SessionRow). s.id == id) db.auth_sessions ≤ 1

newer_total :
    (a b : SessionRow) → (b.id == a.id) ≡ false → (is_newer a b ≡ true) ⊎ (is_newer b a ≡ true)
unfolding is_newer
newer_total a b h = ground arith

newer_trans : (a b c : SessionRow) → is_newer a b ≡ true → is_newer b c ≡ true → is_newer a c ≡ true
unfolding is_newer
newer_trans a b c h k = ground arith

newer_irrefl : (a : SessionRow) → is_newer a a ≡ false
unfolding is_newer
newer_irrefl a = ground arith

module _ (q : SessionRow → Bool) where
  -- a row of the test that is newer than no other of them
  abbrev Oldest : List SessionRow → Type 0
  Oldest rows = (w : SessionRow) × (q w ≡ true) × (exists (λ o. q o && is_newer w o) rows ≡ false)

  older_than_none :
      (x w : SessionRow) (rows : List SessionRow)
      → is_newer w x ≡ true
      → exists (λ o. q o && is_newer w o) rows ≡ false
      → exists (λ o. q o && is_newer x o) rows ≡ false
  older_than_none x w rows h e =
      exists-none_weaken _ _ rows (λ o t. ground (arith, newer_trans w x o)) e

  Oldest-cases : (rows : List SessionRow) → (exists q rows ≡ false) ⊎ Oldest rows
  unfolding exists
  Oldest-cases [] = inl refl
  Oldest-cases (x ∷ rows) = elim (Bool-cases (q x)) [
    | inr out ↦ elim (Oldest-cases rows) [
      | inl nobody ↦ inl (ground arith)
      | inr (w, at, no_older) ↦ inr (w, at, ground arith)
    ]
    | inl hit ↦ elim (Oldest-cases rows) [
      | inl nobody ↦ inr (
        x,
        hit,
        ground (
          arith,
          newer_irrefl x,
          exists-none_weaken (λ o. q o && is_newer x o) q rows (λ o t. ground arith) nobody,
        ),
      )
      | inr (w, at, no_older) ↦ elim (Bool-cases (is_newer w x)) [
        | inl older ↦
            inr (x, hit, ground (arith, newer_irrefl x, older_than_none x w rows older no_older))
        | inr newer ↦ inr (w, at, ground arith)
      ]
    ]
  ]

  -- every row of the test is the oldest one or newer than it
  count-oldest :
      (w : SessionRow) (rows : List SessionRow)
      → exists (λ o. q o && is_newer w o) rows ≡ false
      → count_where q rows
        ≤ count_where (λ o. q o && is_newer o w) rows
          + count_where (λ (o : SessionRow). o.id == w.id) rows
  unfolding exists count_where
  count-oldest w [] h = omega arith
  count-oldest w (x ∷ rows) h = ground (arith, newer_total w x, count-oldest w rows)

is_open-revoked : (now user_id : ℕ) (s : SessionRow) → is_open user_id (revoked now s) ≡ false
unfolding is_open
is_open-revoked now user_id s = ground arith

-- A revocation of some of the open sessions: the others are still open.
count-revoked :
    (now user_id : ℕ) (keep : SessionRow → Bool) (rows : List SessionRow)
    → count_where
        (is_open user_id)
        (update_where (λ s. is_open user_id s && not (keep s)) (revoked now) rows)
      ≡ count_where (λ s. is_open user_id s && keep s) rows
unfolding count_where update_where
count-revoked now user_id keep [] = refl
count-revoked now user_id keep (s ∷ rows) = elim (Bool-cases (is_open user_id s && not (keep s))) [
  | inl hit ↦
      rw (hit, is_open-revoked now user_id s) (ground (arith, count-revoked now user_id keep rows))
  | inr miss ↦ rw miss (ground (arith, count-revoked now user_id keep rows))
]

count-split :
    (p k : SessionRow → Bool) (rows : List SessionRow)
    → count_where (λ s. p s && k s) rows + count_where (λ s. p s && not (k s)) rows
      ≡ count_where p rows
unfolding count_where
count-split p k [] = refl
count-split p k (s ∷ rows) = ground (arith, count-split p k rows)

module _ (now user_id max_sessions : ℕ) (db : Db) where
  abbrev stays : SessionRow → Bool
  stays s = is_open user_id s && is_within_limit db.auth_sessions user_id max_sessions s

  count-stays : HasUniqueIds db → count_where stays db.auth_sessions ≤ max_sessions
  unfolding is_within_limit
  count-stays unique = elim (Oldest-cases stays db.auth_sessions) [
    | inl nobody ↦ omega (arith, count-exists stays db.auth_sessions nobody)
    | inr (w, at, no_older) ↦
        let ranked : count_where (λ o. is_open user_id o && is_newer o w) db.auth_sessions
            < max_sessions =
          ground arith in
        let newer =
          count-weaken (λ o. stays o && is_newer o w) (λ o. is_open user_id o && is_newer o w)
            db.auth_sessions (λ o t. ground arith) in
        omega (arith, ranked, newer, count-oldest stays w db.auth_sessions no_older, unique w.id)
  ]

  -- With unique ids, a user has at most `max_sessions` open sessions after the limit was enforced, and
  -- the call reports how many open ones it revoked.
  pub enforce_user_limit-count :
      HasUniqueIds db
      → (count_where
            (is_open user_id)
            (enforce_user_limit now db user_id max_sessions).1.auth_sessions
          ≤ max_sessions)
        × (count_where
                (is_open user_id)
                (enforce_user_limit now db user_id max_sessions).1.auth_sessions
              + (enforce_user_limit now db user_id max_sessions).0
            ≡ count_where (is_open user_id) db.auth_sessions)
  unfolding enforce_user_limit
  enforce_user_limit-count unique =
      let kept =
        count-revoked now user_id (is_within_limit db.auth_sessions user_id max_sessions)
          db.auth_sessions in
      let split =
        count-split (is_open user_id) (is_within_limit db.auth_sessions user_id max_sessions)
          db.auth_sessions in
      (rw kept (count-stays unique), rw kept split)
