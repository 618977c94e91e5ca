-- ===== src/Service/ModuleUnlock/Window.antt =====
-- How long, and for whom, an unlock opens a module.
use arc_admin.Prelude.{
  nat_eq, string_eq, Bool, Bool-cases, List, String, [], ap, arith, err, exists, false,
  fetch-delete_other, fetch-none, fetch-update_other, fetch_optional, if◌then◌else◌, inl, inr, ltb,
  nat_beq_iff, none, ok, refl, some, true, update_where, ℕ, ◌&&◌, ◌+◌, ◌==◌, ◌∙◌, ◌∷◌, ◌≡◌, ◌≤◌,
}
use package.text.Mathlib.TextEquality.{eq_iff}
use arc_admin.Db.{Db, ModuleUnlockRow, seconds, text, number}
use arc_admin.Repo.ModuleUnlock
use arc_admin.Repo.ModuleUnlock.{same_key, expiry}
use arc_admin.Error.{forbidden}
use arc_admin.Repo.AuditLogs.{record_log}
use arc_admin.Service.ModuleUnlock.{
  validate_module, ModuleUnlockStatus, store_unlock, require, locked, unlock_ttl_secs,
}

module _ (now later session user expires_at : ℕ) (module_name : String) where
  abbrev taken_over : ModuleUnlockRow → ModuleUnlockRow
  taken_over u = record u { user_id = user; issued_at = now; expires_at = expires_at }

  abbrev opens : ℕ → ℕ → String → ModuleUnlockRow → Bool
  opens s u m row =
      row.session_id == s && row.user_id == u && row.module_scope == m && ltb later row.expires_at

  abbrev opens_new : ℕ → Bool
  opens_new user' = user' == user && ltb later expires_at

  opens-taken_over :
      (user' : ℕ) (r : ModuleUnlockRow)
      → same_key session module_name r ≡ true
      → opens session user' module_name (taken_over r) ≡ opens_new user'
  unfolding same_key
  opens-taken_over user' r h = ground (arith, nat_beq_iff user user', nat_beq_iff user' user)

  opens-same_key :
      (user' : ℕ) (r : ModuleUnlockRow)
      → same_key session module_name r ≡ false
      → opens session user' module_name r ≡ false
  unfolding same_key
  opens-same_key user' r h = ground arith

  -- For its own key an unlock that takes a row over opens the module for its user.
  own_key :
      (user' : ℕ) (rows : List ModuleUnlockRow)
      → expiry (
          fetch_optional
            (opens session user' module_name)
            (update_where (same_key session module_name) taken_over rows))
        ≡ (if exists (same_key session module_name) rows && opens_new user'
            then some expires_at
            else none)
  unfolding fetch_optional update_where exists
  own_key user' [] = refl
  own_key user' (r ∷ rows) = elim (Bool-cases (same_key session module_name r)) [
    | inl hit ↦ rw (hit, opens-taken_over user' r hit) (ground (arith, own_key user' rows))
    | inr miss ↦ rw (miss, opens-same_key user' r miss) (own_key user' rows)
  ]

  -- An unlock for one key answers for another as before.
  other_key :
      (session' user' : ℕ) (module_name' : String) (rows : List ModuleUnlockRow)
      → (session' == session && module_name' == module_name) ≡ false
      → fetch_optional
          (opens session' user' module_name')
          (update_where (same_key session module_name) taken_over rows)
        ≡ fetch_optional (opens session' user' module_name') rows
  unfolding same_key
  other_key session' user' module_name' rows other =
      fetch-update_other (opens session' user' module_name') (same_key session module_name)
        taken_over rows
        λ r h. ground (
          arith,
          nat_beq_iff session' session,
          eq_iff module_name' module_name,
          eq_iff r.module_scope module_name,
          eq_iff r.module_scope module_name',
        )

  abbrev new_row : ModuleUnlockRow
  new_row = record {
    session_id = session;
    user_id = user;
    module_scope = module_name;
    issued_at = now;
    expires_at = expires_at;
  }

  same_key-fields :
      (r : ModuleUnlockRow)
      → r.session_id ≡ session
      → r.module_scope ≡ module_name
      → same_key session module_name r ≡ true
  unfolding same_key
  same_key-fields r es em =
      ground (arith, eq_iff r.module_scope module_name, nat_beq_iff r.session_id session)

  opens-fields :
      (session' user' : ℕ) (module_name' : String) (r : ModuleUnlockRow)
      → r.session_id ≡ session
      → r.module_scope ≡ module_name
      → (session' == session && module_name' == module_name) ≡ false
      → opens session' user' module_name' r ≡ false
  opens-fields session' user' module_name' r es em other = ground (
    arith,
    nat_beq_iff session' session,
    eq_iff module_name' module_name,
    eq_iff r.module_scope module_name',
  )

  active-upsert_self :
      (user' : ℕ) (db : Db)
      → ModuleUnlock.active_expires_at later
          (ModuleUnlock.upsert now db session user module_name expires_at)
          session
          user'
          module_name
        ≡ (if opens_new user' then some expires_at else none)
  unfolding ModuleUnlock.active_expires_at ModuleUnlock.upsert
  active-upsert_self user' db =
      elim (Bool-cases (exists (same_key session module_name) db.module_unlocks)) [
        | inl taken ↦ rw taken (ground (arith, own_key user' db.module_unlocks, taken))
        | inr free ↦
            let nothing =
              fetch-none (opens session user' module_name) (same_key session module_name)
                db.module_unlocks (λ r h. unfold same_key in ground arith) free in
            let head = opens-taken_over user' new_row (same_key-fields new_row refl refl) in
            rw free (unfold fetch_optional in rw (head, nothing) (ground arith))
      ]

  active-upsert_other :
      (session' user' : ℕ) (module_name' : String) (db : Db)
      → (session' == session && module_name' == module_name) ≡ false
      → ModuleUnlock.active_expires_at later
          (ModuleUnlock.upsert now db session user module_name expires_at)
          session'
          user'
          module_name'
        ≡ ModuleUnlock.active_expires_at later db session' user' module_name'
  unfolding ModuleUnlock.active_expires_at ModuleUnlock.upsert
  active-upsert_other session' user' module_name' db other =
      elim (Bool-cases (exists (same_key session module_name) db.module_unlocks)) [
        | inl taken ↦ rw (taken, other_key session' user' module_name' db.module_unlocks other)
        | inr free ↦
            let closed = opens-fields session' user' module_name' new_row refl refl other in
            rw free (unfold fetch_optional in rw closed)
      ]

  -- The row that an unlock leaves for its key opens the module for its user until it expires; for
  -- every other key the answer is the one of the rows before.
  active-upsert :
      (session' user' : ℕ) (module_name' : String) (db : Db)
      → ModuleUnlock.active_expires_at later
          (ModuleUnlock.upsert now db session user module_name expires_at)
          session'
          user'
          module_name'
        ≡ (if session' == session && module_name' == module_name
            then if opens_new user' then some expires_at else none
            else ModuleUnlock.active_expires_at later db session' user' module_name')
  active-upsert session' user' module_name' db =
      elim (Bool-cases (session' == session && module_name' == module_name)) [
        | inl same ↦
            let es : session' ≡ session = ground (arith, nat_beq_iff session' session) in
            let em : module_name' ≡ module_name = ground (arith, eq_iff module_name' module_name) in
            rw same (rw (es, em) (active-upsert_self user' db))
        | inr other ↦ rw other (active-upsert_other session' user' module_name' db other)
      ]

-- The clean-up takes no row that is still open later.
active-prune :
    (now later session user : ℕ) (module_name : String) (db : Db)
    → now ≤ later
    → ModuleUnlock.active_expires_at later (ModuleUnlock.prune now db) session user module_name
      ≡ ModuleUnlock.active_expires_at later db session user module_name
unfolding ModuleUnlock.active_expires_at ModuleUnlock.prune
active-prune now later session user module_name db h = ap expiry (
    fetch-delete_other (opens now later session user 0 module_name session user module_name) _
      db.module_unlocks (λ r e. ground arith))

-- `require` reads no more of the database than the expiry of the module.
require-window :
    (now later session user expires_at : ℕ) (module_name : String) (session' user' : ℕ)
    (module_name' : String) (db pruned upserted db' : Db)
    → validate_module module_name ≡ ok tt
    → ModuleUnlock.active_expires_at later db' session' user' module_name'
      ≡ ModuleUnlock.active_expires_at later upserted session' user' module_name'
    → ModuleUnlock.active_expires_at later upserted session' user' module_name' ≡ (
        if session' == session && module_name' == module_name
        then if opens_new now later session user expires_at module_name user'
          then some expires_at
          else none
        else ModuleUnlock.active_expires_at later pruned session' user' module_name')
    → ModuleUnlock.active_expires_at later pruned session' user' module_name'
      ≡ ModuleUnlock.active_expires_at later db session' user' module_name'
    → require later db' session' user' module_name' ≡ (
        if session' == session && module_name' == module_name
        then if user' == user && ltb later expires_at then ok tt else err (forbidden locked)
        else require later db session' user' module_name')
unfolding require
require-window now later session user expires_at module_name session' user' module_name' db pruned
      upserted db' valid logged window kept =
    elim (Bool-cases (session' == session && module_name' == module_name)) [
      | inl same ↦
          let em : module_name' ≡ module_name = ground (arith, eq_iff module_name' module_name) in
          let open_until = logged ∙ rw same at window in
          rw (same, open_until, em, valid) (ground arith)
      | inr other ↦ let as_before = logged ∙ rw other at window ∙ kept in rw (other, as_before)
    ]

module _ (now utc_now later session user session' user' : ℕ)
    (module_name module_name' : String) where
  -- After an unlock of a valid module, at any later time: for the same session and module, the
  -- module is open exactly to the user of the unlock and before 300 seconds have passed on the
  -- server's clock; for any other session or module, `require` answers as it did before.
  pub require-store_unlock :
      (db : Db) {answer : ModuleUnlockStatus} {db' : Db}
      → now ≤ later
      → validate_module module_name ≡ ok tt
      → store_unlock now utc_now session user module_name db ≡ ok (answer, db')
      → require later db' session' user' module_name' ≡ (
          if session' == session && module_name' == module_name
          then if user' == user && ltb later (utc_now + seconds unlock_ttl_secs)
            then ok tt
            else err (forbidden locked)
          else require later db session' user' module_name')
  unfolding store_unlock
  require-store_unlock db {db'} order valid h =
      let at = utc_now + seconds unlock_ttl_secs in
      let pruned = ModuleUnlock.prune now db in
      let upserted = ModuleUnlock.upsert now pruned session user module_name at in
      let written : db'
          ≡ record_log upserted (some user) "auth.module_unlock.issued" "user" (some user)
              (("module", text module_name) ∷ ("expiresAt", number at) ∷ []) =
        ground arith in
      let logged : ModuleUnlock.active_expires_at later db' session' user' module_name'
          ≡ ModuleUnlock.active_expires_at later upserted session' user' module_name' =
        rw written (unfold record_log ModuleUnlock.active_expires_at in refl) in
      require-window now later session user at module_name session' user' module_name' db pruned
        upserted db' valid logged
        (active-upsert now later session user at module_name session' user' module_name' pruned)
        (active-prune now later session' user' module_name' db order)
