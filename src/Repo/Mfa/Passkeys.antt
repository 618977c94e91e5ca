-- ===== src/Repo/Mfa/Passkeys.antt =====
-- The passkeys of an account: backend/src/repositories/mfa.rs. The column created_at is left out: a
-- list ordered by it and the id is ordered by the id.
use arc_admin.Prelude.{
  nat_eq, string_eq, Bool, List, String, [], count_where, delete_where, exists, fail_if, ltb, none,
  ok, select, some, suc, update_where, ℕ, ◌&&◌, ◌++◌, ◌==◌, ◌>>◌, ◌∷◌,
}
use arc_admin.Error.{Sql, unique_violation}
use arc_admin.Db.{Db, PasskeyRow}

unfoldable pub list_passkeys : Db → ℕ → List PasskeyRow
list_passkeys db user_id = select (λ (k : PasskeyRow). k.user_id == user_id) db.passkeys

unfoldable pub create_passkey : Db → ℕ → String → String → String → Sql (ℕ × Db)
create_passkey db user_id name credential_id credential = do
  fail_if (exists (λ (k : PasskeyRow). k.credential_id == credential_id) db.passkeys)
      unique_violation
  let key : PasskeyRow = record {
    id = db.next_passkey;
    user_id = user_id;
    name = name;
    credential_id = credential_id;
    credential = credential;
    last_used_at = none;
  }
  ok (
    db.next_passkey,
    record db { passkeys = db.passkeys ++ key ∷ []; next_passkey = suc db.next_passkey },
  )

unfoldable pub update_passkey_after_use : ℕ → Db → ℕ → String → Db
update_passkey_after_use now db id credential = record db {
  passkeys =
      update_where (λ (k : PasskeyRow). k.id == id)
        (λ k. record k { credential = credential; last_used_at = some now }) db.passkeys;
}

unfoldable pub delete_passkey : Db → ℕ → ℕ → Bool × Db
delete_passkey db user_id id =
    let hit = λ (k : PasskeyRow). k.id == id && k.user_id == user_id in
    (ltb 0 (count_where hit db.passkeys), record db { passkeys = delete_where hit db.passkeys })
