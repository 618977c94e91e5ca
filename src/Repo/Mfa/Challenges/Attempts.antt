-- ===== src/Repo/Mfa/Challenges/Attempts.antt =====
-- The attempts on a challenge (backend/src/repositories/mfa.rs): an open one has some left, and as
-- many failures as it allows close it.
use arc_admin.Prelude.{
  nat_eq, string_eq, Bool, List, String, [], all, arith, delete_where, exists, fail_if-eq-ok,
  is_some, ltb, ok, ok_injective, refl, sym, true, update_where, ℕ, ◌&&◌, ◌==◌, ◌||◌, ◌∷◌, ◌≡◌,
}
use arc_admin.Db.{Db, ChallengeRow, ChallengeState}
use arc_admin.Repo.Mfa.Challenges.{
  create_challenge, consume_login_challenges_for_user, record_challenge_failure, consume_challenge,
  prune_challenges, failed_once, consumed, is_open_login, is_login_kind,
}

-- consumed, or with an attempt to spare
abbrev pub has_attempts : ChallengeRow → Bool
has_attempts c = is_some c.consumed_at || ltb c.attempt_count c.max_attempts

abbrev pub HaveAttempts : Db → Type 0
HaveAttempts db = all has_attempts db.mfa_challenges ≡ true

all-update :
    (p q : ChallengeRow → Bool) (f : ChallengeRow → ChallengeRow) (rows : List ChallengeRow)
    → ((c : ChallengeRow) → p c ≡ true → p (f c) ≡ true)
    → all p rows ≡ true
    → all p (update_where q f rows) ≡ true
unfolding all update_where
all-update p q f [] h a = refl
all-update p q f (c ∷ rows) h a = ground (arith, h c, all-update p q f rows h)

all-delete :
    (p q : ChallengeRow → Bool) (rows : List ChallengeRow)
    → all p rows ≡ true
    → all p (delete_where q rows) ≡ true
unfolding all delete_where
all-delete p q [] a = refl
all-delete p q (c ∷ rows) a = ground (arith, all-delete p q rows)

-- One operation on the table, by whatever part of the service.
pub data ChallengeStep : Db → Db → Type 0 where
  issues :
      (db : Db) (hash : String) (user_id : ℕ) (kind : String) (persistent : Bool)
      (state : ChallengeState) (expires_at : ℕ) {next : Db}
      → create_challenge db hash user_id kind persistent state expires_at ≡ ok next
      → ChallengeStep db next
  replaces :
      (now : ℕ) (db : Db) (user_id : ℕ)
      → ChallengeStep db (consume_login_challenges_for_user now db user_id).1
  fails : (now : ℕ) (db : Db) (id : ℕ) → ChallengeStep db (record_challenge_failure now db id).1
  consumes : (now : ℕ) (db : Db) (id : ℕ) → ChallengeStep db (consume_challenge now db id)
  prunes : (now : ℕ) (db : Db) → ChallengeStep db (prune_challenges now db)

pub data ChallengeSteps : Db → Db → Type 0 where
  rests : (db : Db) → ChallengeSteps db db
  steps :
      {before mid after : Db}
      → ChallengeStep before mid
      → ChallengeSteps mid after
      → ChallengeSteps before after

create_challenge-attempts :
    (db : Db) (hash : String) (user_id : ℕ) (kind : String) (persistent : Bool)
    (state : ChallengeState) (expires_at : ℕ) {next : Db}
    → create_challenge db hash user_id kind persistent state expires_at ≡ ok next
    → HaveAttempts db
    → HaveAttempts next
unfolding create_challenge all
create_challenge-attempts db hash user_id kind persistent state expires_at h a =
    let (_, rest) =
      fail_if-eq-ok (exists (λ (c : ChallengeRow). c.token_hash == hash) db.mfa_challenges) _ _ h in
    let (_, done) =
      fail_if-eq-ok (is_login_kind kind && exists (is_open_login user_id) db.mfa_challenges) _ _
        rest in
    rw (sym (ok_injective done)) a

failed_once-attempts :
    (now : ℕ) (c : ChallengeRow) → has_attempts c ≡ true → has_attempts (failed_once now c) ≡ true
unfolding failed_once
failed_once-attempts now c h = ground arith

ChallengeStep-attempts :
    {before after : Db} → ChallengeStep before after → HaveAttempts before → HaveAttempts after
unfolding consume_login_challenges_for_user record_challenge_failure consume_challenge
    prune_challenges consumed
ChallengeStep-attempts (issues db hash user_id kind persistent state expires_at h) a =
    create_challenge-attempts db hash user_id kind persistent state expires_at h a
ChallengeStep-attempts (replaces now db user_id) a =
    all-update has_attempts (is_open_login user_id) (consumed now) db.mfa_challenges (λ c e. refl) a
ChallengeStep-attempts (fails now db id) a =
    all-update has_attempts _ (failed_once now) db.mfa_challenges (failed_once-attempts now) a
ChallengeStep-attempts (consumes now db id) a =
    all-update has_attempts _ (consumed now) db.mfa_challenges (λ c e. refl) a
ChallengeStep-attempts (prunes now db) a = all-delete has_attempts _ db.mfa_challenges a

-- Whatever sequence of operations works on the table, a challenge that is not consumed has had fewer
-- failures than it allows, if that was so before.
pub ChallengeSteps-attempts :
    {before after : Db} → ChallengeSteps before after → HaveAttempts before → HaveAttempts after
ChallengeSteps-attempts (rests db) a = a
ChallengeSteps-attempts (steps first rest) a =
    ChallengeSteps-attempts rest (ChallengeStep-attempts first a)
