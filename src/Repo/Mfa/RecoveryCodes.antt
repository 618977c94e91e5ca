-- ===== src/Repo/Mfa/RecoveryCodes.antt =====
-- The recovery codes of an account: backend/src/repositories/mfa.rs.
use arc_admin.Prelude.{
  nat_eq, string_eq, Bool, List, String, [], delete_where, exists, is_none, none, select, some, suc,
  update_where, ℕ, ◌&&◌, ◌++◌, ◌==◌, ◌∷◌,
}
use arc_admin.Db.{Db, RecoveryCodeRow, MfaSettingsRow}

-- `for hash in hashes`: an INSERT each.
unfoldable pub insert_codes : Db → ℕ → List String → Db
insert_codes db user_id [] = db
insert_codes db user_id (hash ∷ hashes) =
    let code : RecoveryCodeRow = record {
      id = db.next_recovery_code;
      user_id = user_id;
      code_hash = hash;
      used_at = none;
    } in
    insert_codes
      (record db {
        recovery_codes = db.recovery_codes ++ code ∷ [];
        next_recovery_code = suc db.next_recovery_code;
      })
      user_id hashes

unfoldable pub replace_recovery_codes : ℕ → Db → ℕ → List String → Db
unfolding insert_codes
replace_recovery_codes now db user_id hashes =
    let emptied = record db {
      recovery_codes =
          delete_where (λ (c : RecoveryCodeRow). c.user_id == user_id) db.recovery_codes;
    } in
    let filled = insert_codes emptied user_id hashes in
    record filled {
      mfa_settings =
          update_where (λ (m : MfaSettingsRow). m.user_id == user_id)
            (λ m. record m { recovery_codes_issued_at = some now }) filled.mfa_settings;
    }

-- The rows stand by their ids, in which they are inserted.
unfoldable pub recovery_codes : Db → ℕ → List RecoveryCodeRow
recovery_codes db user_id =
    select (λ (c : RecoveryCodeRow). c.user_id == user_id && is_none c.used_at) db.recovery_codes

-- `id = $1 AND user_id = $2 AND used_at IS NULL`
unfoldable pub is_unused : ℕ → ℕ → RecoveryCodeRow → Bool
is_unused id user_id c = c.id == id && (c.user_id == user_id && is_none c.used_at)

unfoldable pub consume_recovery_code : ℕ → Db → ℕ → ℕ → Bool × Db
unfolding is_unused
consume_recovery_code now db user_id id = (
  exists (is_unused id user_id) db.recovery_codes,
  record db {
    recovery_codes =
        update_where (is_unused id user_id) (λ c. record c { used_at = some now })
          db.recovery_codes;
  },
)
