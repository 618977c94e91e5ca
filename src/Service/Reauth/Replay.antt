-- ===== src/Service/Reauth/Replay.antt =====
-- A TOTP code is good for one re-authentication.
use arc_admin.Prelude.{
  nat_eq, string_eq, List, String, arith, err, exists-update_none, false, fetch-update, is_some, ok,
  refl, some, trim, ℕ, ◌&&◌, ◌==◌, ◌≡◌, ◌≤◌,
}
use arc_admin.Db.{Db, MfaSettingsRow, UserRow}
use arc_admin.Repo.Mfa
use arc_admin.Repo.Users
use arc_admin.Error.{Api, validation}
use arc_admin.Action.{committed}
use arc_admin.External.{External}
use arc_admin.Service.Reauth.{totp_transaction, used_code, verify_totp_code, matching_totp_counter}
use arc_admin.Mfa.{decrypt_totp_secret}

-- After a counter has been consumed, no row of the user takes it again, or an earlier one.
consumed_counter :
    (now later user_id counter again : ℕ) (db : Db)
    → again ≤ counter
    → (Mfa.consume_reauth_totp_counter later
        (Mfa.consume_reauth_totp_counter now db user_id counter).1
        user_id
        again).0
      ≡ false
unfolding Mfa.consume_reauth_totp_counter Mfa.accepts_counter
consumed_counter now later user_id counter again db older =
    exists-update_none _ _ _ db.mfa_settings (λ m. ground arith)

-- Consuming a counter leaves the stored secrets alone.
totp_secret-consume :
    (now user_id counter : ℕ) (db : Db)
    → Mfa.totp_secret (Mfa.consume_reauth_totp_counter now db user_id counter).1 user_id
      ≡ Mfa.totp_secret db user_id
unfolding Mfa.consume_reauth_totp_counter Mfa.totp_secret
totp_secret-consume now user_id counter db = ground (
  arith,
  fetch-update (λ (m : MfaSettingsRow). m.user_id == user_id && is_some m.totp_enabled_at)
      (Mfa.accepts_counter user_id counter)
      (λ m. record m {
        last_reauth_totp_counter = some counter;
        last_reauth_totp_used_at = some now;
      })
      db.mfa_settings (λ m. refl),
)

module _ (ext : External) (step now later user_id : ℕ) (code again : String) where
  -- The stored secret of the user, and the counters that the two codes match with it.
  pub record Matches (db : Db) (counter other : ℕ) : Type 0 where
    pub user : UserRow
    pub sealed : List ℕ
    pub secret : List ℕ
    pub found : Users.find_by_id db user_id ≡ some user
    pub stored : Mfa.totp_secret db user_id ≡ some sealed
    pub opened : decrypt_totp_secret ext user_id sealed ≡ ok secret
    pub first : ext.totp_check step secret user.username (trim code) now ≡ ok (some counter)
    pub second : ext.totp_check step secret user.username (trim again) later ≡ ok (some other)

  module _ (counter other : ℕ) (db : Db) where
    transaction_first :
        (m : Matches db counter other) {db' : Db}
        → totp_transaction ext step now user_id code m.user db ≡ ok (tt, db')
        → db' ≡ (Mfa.consume_reauth_totp_counter now db user_id counter).1
    unfolding totp_transaction matching_totp_counter
    transaction_first m {db'} h =
        let h' = rw (m.stored, m.opened, m.first) at h in ground (arith, h')

    transaction_again :
        (m : Matches db counter other)
        → other ≤ counter
        → totp_transaction ext step later user_id again m.user
            (Mfa.consume_reauth_totp_counter now db user_id counter).1
          ≡ err (validation used_code)
    unfolding totp_transaction matching_totp_counter
    transaction_again m older = rw (
      totp_secret-consume now user_id counter db,
      m.stored,
      m.opened,
      m.second,
      consumed_counter now later user_id counter other db older,
    )

    -- The second call, by how the first call's transaction ended.
    second_call :
        (m : Matches db counter other) (first : Api ((Unit {0}) × Db))
        → other ≤ counter
        → totp_transaction ext step now user_id code m.user db ≡ first
        → (committed db first).0 ≡ ok tt
        → verify_totp_code ext step later user_id again (committed db first).1
          ≡ (err (validation used_code), (committed db first).1)
    unfolding verify_totp_code Users.find_by_id Mfa.consume_reauth_totp_counter
    second_call m (err e) older eq h = cc
    second_call m (ok (_, db')) older eq h =
        let stored = transaction_first m {db' = db'} eq in
        rw (stored, m.found, transaction_again m older)

    -- If a code was accepted, then a code that matches the same counter of the account's secret or an
    -- earlier one, in whatever later time step and so the same digits while they are valid, is refused
    -- in the database that the first call left, and nothing is written.
    pub verify_totp_code_twice :
        Matches db counter other
        → other ≤ counter
        → (verify_totp_code ext step now user_id code db).0 ≡ ok tt
        → verify_totp_code ext step later user_id again
            (verify_totp_code ext step now user_id code db).1
          ≡ (err (validation used_code), (verify_totp_code ext step now user_id code db).1)
    verify_totp_code_twice m older h =
        let first : verify_totp_code ext step now user_id code db
            ≡ committed db (totp_transaction ext step now user_id code m.user db) =
          unfold verify_totp_code in rw m.found in
        rw first (second_call m _ older refl (rw first at h))
