-- ===== src/Service/ModuleUnlock.antt =====
-- backend/src/services/module_unlock.rs.
pub mod Window
use arc_admin.Prelude.{
  nat_eq, string_eq, Bool, List, Option, String, [], elem, fail_if, is_none, is_some, not, ok, some,
  true, ℕ, ◌+◌, ◌>>=◌, ◌>>◌, ◌∷◌,
}
use arc_admin.External.{External}
use arc_admin.Error.{Api, ApiError, forbidden, validation}
use arc_admin.Db.{Db, Detail, text, number, seconds}
use arc_admin.Action.{Action, transaction, and_then, check}
use arc_admin.Repo.ModuleUnlock
use arc_admin.Repo.AuditLogs.{record_log}
use arc_admin.Service.Reauth.{verify_reauthentication}

abbrev pub unlock_ttl_secs : ℕ
unlock_ttl_secs = 300

abbrev valid_modules : List String
valid_modules = "users" ∷ "roles" ∷ []

pub record ModuleUnlockRequest : Type 0 where
  pub current_password : String
  pub totp_code : Option String
  pub module_name : String

pub record ModuleUnlockStatus : Type 0 where
  pub module_name : String
  pub unlocked : Bool
  pub expires_at : Option ℕ

unfoldable pub validate_module : String → Api (Unit {0})
validate_module module_name =
    fail_if (not (elem module_name valid_modules)) (validation "无效的模块解锁范围")

unfoldable pub status : ℕ → Db → ℕ → ℕ → String → Api ModuleUnlockStatus
unfolding validate_module
status now db session_id user_id module_name = do
  validate_module module_name
  let expires_at = ModuleUnlock.active_expires_at now db session_id user_id module_name
  ok (record { module_name = module_name; unlocked = is_some expires_at; expires_at = expires_at })

-- The transaction of `issue`.
unfoldable pub store_unlock : ℕ → ℕ → ℕ → ℕ → String → Db → Api (ModuleUnlockStatus × Db)
store_unlock now utc_now session_id user_id module_name pool =
    let expires_at = utc_now + seconds unlock_ttl_secs in
    let pruned = ModuleUnlock.prune now pool in
    let unlocked = ModuleUnlock.upsert now pruned session_id user_id module_name expires_at in
    ok (
      record { module_name = module_name; unlocked = true; expires_at = some expires_at },
      record_log unlocked (some user_id) "auth.module_unlock.issued" "user" (some user_id)
          (("module", text module_name) ∷ ("expiresAt", number expires_at) ∷ []),
    )

unfoldable pub issue :
    External → ℕ → ℕ → ℕ → ℕ → ℕ → ModuleUnlockRequest → Action ModuleUnlockStatus
unfolding validate_module
issue ext totp_step_secs now utc_now session_id user_id req =
    and_then (check (λ db. validate_module req.module_name)) λ _.
      and_then
        (verify_reauthentication ext totp_step_secs now user_id req.current_password req.totp_code)
        λ _. transaction (store_unlock now utc_now session_id user_id req.module_name)

abbrev pub locked : String
locked = "当前模块需要先完成身份验证"

unfoldable pub require : ℕ → Db → ℕ → ℕ → String → Api (Unit {0})
unfolding validate_module
require now db session_id user_id module_name = do
  validate_module module_name
  fail_if (is_none (ModuleUnlock.active_expires_at now db session_id user_id module_name))
      (forbidden locked)
