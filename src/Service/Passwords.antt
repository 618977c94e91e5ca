-- ===== src/Service/Passwords.antt =====
-- Of backend/src/services/auth.rs: the rules and hashes of passwords, and the log of revocations.
use arc_admin.Prelude.{
  nat_eq, string_eq, List, Option, String, [], char_count, fail_if, if◌then◌else◌, leb, map_err,
  not, some, ℕ, ◌&&◌, ◌==◌, ◌∷◌,
}
use arc_admin.External.{External}
use arc_admin.Error.{Api, validation, internal}
use arc_admin.Db.{Db, text, number}
use arc_admin.Repo.AuditLogs.{record_log}

unfoldable pub validate_password : String → Api (Unit {0})
validate_password password =
    let count = char_count password in
    fail_if (not (leb 12 count && leb count 128)) (validation "密码长度需在 12-128 个字符之间")

-- `hash_password_async`, by the random salt.
unfoldable pub hash_password : External → List ℕ → String → Api String
hash_password ext salt password = map_err internal (ext.argon2_hash salt password)

unfoldable pub record_session_revocation : Db → Option ℕ → ℕ → String → ℕ → Db
record_session_revocation db actor_user_id target_user_id reason revoked_session_count =
    if revoked_session_count == 0
    then db
    else record_log db actor_user_id "auth.session.revoked" "user" (some target_user_id)
        (("reason", text reason) ∷ ("revokedSessionCount", number revoked_session_count) ∷ [])
