-- ===== src/Service/StepUp/OneUse.antt =====
-- A step-up grant is good for one use, whoever presents it afterwards.
use arc_admin.Prelude.{
  nat_eq, string_eq, Bool, Bool-cases, List, Option, Option-cases, String, [], arith,
  count-disjoint, count-update, count_where, err, false, inl, inr, nat_beq, ok, refl, some, true,
  update_where, updated, ℕ, ◌==◌, ◌∷◌, ◌≡◌, ◌≢◌, ◌≤◌, ◌⊎◌,
}
use arc_admin.External.{External}
use arc_admin.Error.{forbidden}
use arc_admin.Db.{Db, StepUpRow, text}
use arc_admin.Repo.StepUp
use arc_admin.Repo.StepUp.{is_live}
use arc_admin.Service.StepUp.{consume, used_grant, use_grant, presented}
use arc_admin.Repo.AuditLogs.{record_log}
use arc_admin.Auth.Token.{token_hash}

-- What UNIQUE (token_hash) keeps: a hash stands in one row at most.
abbrev pub HasUniqueHashes : Db → Type 0
HasUniqueHashes db =
    (hash : String) → count_where (λ (t : StepUpRow). t.token_hash == hash) db.step_up_tokens ≤ 1

-- a row that `consume` has just marked
abbrev marked : ℕ → StepUpRow → StepUpRow
marked now t = record t { consumed_at = some now }

module _ (hash scope other_scope : String)
    (now later session user other_session other_user : ℕ) where
  abbrev live_now : StepUpRow → Bool
  live_now = is_live now hash session user scope

  abbrev live_later : StepUpRow → Bool
  live_later = is_live later hash other_session other_user other_scope

  live_now-hash : (t : StepUpRow) → live_now t ≡ true → (t.token_hash == hash) ≡ true
  unfolding is_live
  live_now-hash t h = ground arith

  live_later-marked :
      (t : StepUpRow)
      → live_later (updated live_now (marked now) t) ≡ true
      → ((t.token_hash == hash) ≡ true) × (live_now t ≡ false)
  unfolding is_live
  live_later-marked t h = elim (Bool-cases (live_now t)) [
    | inl hit ↦ absurd (grind (arith, rw hit at h))
    | inr miss ↦ (ground (arith, rw miss at h), miss)
  ]

  -- If the one row with a hash is marked as consumed, nothing with that hash is live.
  none_live_after :
      (rows : List StepUpRow)
      → count_where (λ (t : StepUpRow). t.token_hash == hash) rows ≤ 1
      → count_where live_now rows ≡ 1
      → count_where live_later (update_where live_now (marked now) rows) ≡ 0
  none_live_after rows unique hit =
      let apart =
        count-disjoint (λ t. live_later (updated live_now (marked now) t)) live_now
          (λ (t : StepUpRow). t.token_hash == hash) rows live_later-marked live_now-hash in
      omega (arith, apart, count-update live_later live_now (marked now) rows)

module _ (ext : External) (now session user : ℕ) (scope token : String) where
  -- the rows that a token opens
  abbrev pub opened : Db → ℕ
  opened db = count_where (is_live now (token_hash ext token) session user scope) db.step_up_tokens

  -- what is left after the token's row was marked and the use was logged
  abbrev pub after_use : Db → Db
  after_use db =
      record_log (StepUp.consume now db (token_hash ext token) session user scope).1 (some user)
        "auth.step_up.consumed" "user" (some user) (("scope", text scope) ∷ [])

  pub use_grant_cases :
      (db : Db)
      → ((opened db ≡ 1) × (use_grant ext now session user scope token db ≡ ok (tt, after_use db)))
        ⊎ ((opened db ≢ 1)
            × (use_grant ext now session user scope token db ≡ err (forbidden used_grant)))
  unfolding use_grant StepUp.consume
  use_grant_cases db = elim (Bool-cases (nat_beq (opened db) 1)) [
    | inl one ↦ inl (ground arith, rw one)
    | inr other ↦ inr (ground arith, rw other)
  ]

  pub tokens-after_use :
      (db : Db)
      → (after_use db).step_up_tokens
        ≡ update_where
            (is_live now (token_hash ext token) session user scope)
            (marked now)
            db.step_up_tokens
  unfolding record_log StepUp.consume
  tokens-after_use db = refl

module _ (ext : External) (now later session user other_session other_user : ℕ)
    (scope other_scope : String) where
  used_token :
      (token : String) (db : Db)
      → HasUniqueHashes db
      → opened ext now session user scope token db ≡ 1
      → use_grant ext later other_session other_user other_scope token
          (after_use ext now session user scope token db)
        ≡ err (forbidden used_grant)
  used_token token db unique one =
      let none_left =
        none_live_after (token_hash ext token) scope other_scope now later session user
          other_session other_user db.step_up_tokens (unique (token_hash ext token)) one in
      elim (use_grant_cases ext later other_session other_user other_scope token
        (after_use ext now session user scope token db)) [
          | inl (again, _) ↦ absurd (omega (arith, rw tokens-after_use at again, none_left))
          | inr (_, refused) ↦ refused
        ]

  -- In a table with unique hashes, once a token has been accepted it is refused for good: at any
  -- time, in any session, for any user and any scope, and the refusal changes nothing.
  pub consume-consume :
      (token : Option String) (db : Db)
      → HasUniqueHashes db
      → (consume ext now session user token scope db).0 ≡ ok tt
      → consume ext later other_session other_user token other_scope
          (consume ext now session user token scope db).1
        ≡ (err (forbidden used_grant), (consume ext now session user token scope db).1)
  unfolding consume
  consume-consume token db unique h = elim (Option-cases (presented token)) [
    | inl missing ↦ absurd (ground (arith, missing))
    | inr (given, e) ↦ elim (use_grant_cases ext now session user scope given db) [
      | inl (one, used) ↦ rw (e, used, used_token given db unique one)
      | inr (_, refused) ↦ absurd (ground (arith, e, refused))
    ]
  ]
