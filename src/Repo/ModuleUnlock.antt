-- ===== src/Repo/ModuleUnlock.antt =====
-- backend/src/repositories/module_unlock.rs: the unlocked modules of a session.
use arc_admin.Prelude.{
  nat_eq, string_eq, Bool, Option, String, delete_where, exists, fetch_optional, if◌then◌else◌, ltb,
  none, some, update_where, ℕ, ◌&&◌, ◌==◌, ◌∷◌,
}
use arc_admin.Db.{Db, ModuleUnlockRow}

abbrev pub expiry : Option ModuleUnlockRow → Option ℕ
expiry none = none
expiry (some u) = some u.expires_at

unfoldable pub active_expires_at : ℕ → Db → ℕ → ℕ → String → Option ℕ
active_expires_at now db session_id user_id module_scope = expiry (
    fetch_optional
      (λ u.
        u.session_id == session_id
        && u.user_id == user_id
        && u.module_scope == module_scope
        && ltb now u.expires_at)
      db.module_unlocks)

-- The key of the table.
unfoldable pub same_key : ℕ → String → ModuleUnlockRow → Bool
same_key session_id module_scope u = u.session_id == session_id && u.module_scope == module_scope

-- INSERT … ON CONFLICT (session_id, module_scope) DO UPDATE
unfoldable pub upsert : ℕ → Db → ℕ → ℕ → String → ℕ → Db
unfolding same_key
upsert now db session_id user_id module_scope expires_at =
    let conflicts = same_key session_id module_scope in
    record db {
      module_unlocks =
          if exists conflicts db.module_unlocks
          then update_where conflicts
              (λ u. record u { user_id = user_id; issued_at = now; expires_at = expires_at })
              db.module_unlocks
          else record {
            session_id = session_id;
            user_id = user_id;
            module_scope = module_scope;
            issued_at = now;
            expires_at = expires_at;
          }
            ∷ db.module_unlocks;
    }

unfoldable pub prune : ℕ → Db → Db
prune now db = record db {
  module_unlocks = delete_where (λ u. ltb u.expires_at now) db.module_unlocks;
}
