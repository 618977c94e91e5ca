-- ===== src/Service/StepUp/Grants.antt =====
-- A stored grant opens what it was issued for, until it expires, and nothing else.
use arc_admin.Prelude.{
  nat_eq, string_eq, Bool, Bool-cases, List, String, arith, count-delete-le, count-exists,
  count-none, count_where, exists, false, if◌then◌else◌, inl, inr, ltb, nat_beq_iff, none, ok, ℕ,
  ◌&&◌, ◌+◌, ◌==◌, ◌∷◌, ◌≡◌,
}
use arc_admin.External.{External}
use package.text.Mathlib.TextEquality.{eq_iff}
use arc_admin.Db.{Db, StepUpRow, seconds}
use arc_admin.Repo.StepUp
use arc_admin.Repo.StepUp.{is_live}
use arc_admin.Repo.AuditLogs.{record_log}
use arc_admin.Auth.Token.{token_hash, random_token}
use arc_admin.Service.StepUp.{StepUpResponse, store_grant, token_ttl_secs}
use arc_admin.Service.StepUp.OneUse.{HasUniqueHashes, opened}

module _ (ext : External) (now utc_now session user : ℕ) (bytes : List ℕ) (scope : String) where
  abbrev hash : String
  hash = token_hash ext (random_token bytes)

  abbrev same_hash : StepUpRow → Bool
  same_hash t = t.token_hash == hash

  abbrev granted : StepUpRow
  granted = record {
    token_hash = hash;
    session_id = session;
    user_id = user;
    scope = scope;
    expires_at = utc_now + seconds token_ttl_secs;
    consumed_at = none;
  }

  -- A grant is stored in front of the rows that are left after the clean-up, where no row has its
  -- hash.
  pub stored :
      (db : Db) {response : StepUpResponse} {db' : Db}
      → store_grant ext now utc_now bytes session user scope db ≡ ok (response, db')
      → (response ≡ record { token = random_token bytes; expires_at = granted.expires_at })
        × (db'.step_up_tokens ≡ granted ∷ (StepUp.prune now db).step_up_tokens)
        × (exists same_hash (StepUp.prune now db).step_up_tokens ≡ false)
  unfolding store_grant StepUp.create record_log
  stored db h = elim (Bool-cases (exists same_hash (StepUp.prune now db).step_up_tokens)) [
    | inl taken ↦ absurd (ground (arith, rw taken at h))
    | inr free ↦ let h' = rw free at h in (ground arith, ground arith, free)
  ]

  prune-HasUniqueHashes : (db : Db) → HasUniqueHashes db → HasUniqueHashes (StepUp.prune now db)
  unfolding StepUp.prune
  prune-HasUniqueHashes db unique h =
      omega (
        arith,
        unique h,
        count-delete-le (λ (t : StepUpRow). t.token_hash == h) _ db.step_up_tokens,
      )

  -- Storing a grant keeps the hashes of the table unique.
  pub store_grant-HasUniqueHashes :
      (db : Db) {response : StepUpResponse} {db' : Db}
      → HasUniqueHashes db
      → store_grant ext now utc_now bytes session user scope db ≡ ok (response, db')
      → HasUniqueHashes db'
  unfolding count_where
  store_grant-HasUniqueHashes db unique e h =
      let (_, rows, free) = stored db e in
      rw rows (
        ground (
          arith,
          prune-HasUniqueHashes db unique h,
          eq_iff hash h,
          count-exists (λ (t : StepUpRow). t.token_hash == hash) _ free,
        ))

  module _ (later session' user' : ℕ) (scope' : String) where
    -- What the grant is good for.
    abbrev pub covers : Bool
    covers =
        session' == session
        && user' == user
        && scope' == scope
        && ltb later (utc_now + seconds token_ttl_secs)

    pub opened-stored :
        (db : Db) {response : StepUpResponse} {db' : Db}
        → store_grant ext now utc_now bytes session user scope db ≡ ok (response, db')
        → opened ext later session' user' scope' (random_token bytes) db'
          ≡ (if covers then 1 else 0)
    unfolding count_where is_live
    opened-stored db {db'} e =
        let (_, rows, free) = stored db e in
        let none_else =
          count-none (is_live later hash session' user' scope') same_hash
            (StepUp.prune now db).step_up_tokens (λ t h. ground arith) free in
        rw rows (
          ground (
            arith,
            none_else,
            eq_iff hash hash,
            eq_iff scope scope',
            eq_iff scope' scope,
            nat_beq_iff session session',
          ))
