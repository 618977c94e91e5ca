-- ===== src/Service/StepUp.antt =====
-- backend/src/services/step_up.rs. `now` is the time of the database's transaction, `utc_now` that
-- of the server's clock, and `bytes` the random bytes of the new token.
pub mod OneUse
pub mod Grants
pub mod Issue
pub mod Tokens
use arc_admin.Prelude.{
  nat_eq, string_eq, Bool, List, Option, String, [], byte_len, elem, err, fail_if, if◌then◌else◌,
  none, not, ok, some, ℕ, ◌+◌, ◌==◌, ◌>>=◌, ◌>>◌, ◌∷◌,
}
use arc_admin.External.{External}
use arc_admin.Error.{Api, ApiError, forbidden, validation, from_db}
use arc_admin.Db.{Db, Detail, text, seconds}
use arc_admin.Action.{Action, transaction, and_then}
use arc_admin.Auth.Token.{random_token, token_hash}
use arc_admin.Repo.StepUp
use arc_admin.Repo.AuditLogs.{record_log}
use arc_admin.Service.Reauth.{verify_reauthentication}

abbrev pub token_ttl_secs : ℕ
token_ttl_secs = 300

abbrev valid_scopes : List String
valid_scopes =
    "auth.password.change" ∷ "users.sensitive" ∷ "users.roles.write" ∷ "users.delete"
    ∷ "roles.sensitive" ∷ "roles.permissions.write" ∷ "roles.delete" ∷ "departments.write"
    ∷ "departments.delete" ∷ []

unfoldable pub is_valid_scope : String → Bool
is_valid_scope scope = elem scope valid_scopes

pub record StepUpRequest : Type 0 where
  pub current_password : String
  pub totp_code : Option String
  pub scope : String

pub record StepUpResponse : Type 0 where
  pub token : String
  pub expires_at : ℕ

-- The transaction of `issue`.
unfoldable pub store_grant :
    External → ℕ → ℕ → List ℕ → ℕ → ℕ → String → Db → Api (StepUpResponse × Db)
store_grant ext now utc_now bytes session_id user_id scope pool = do
  let token = random_token bytes
  let expires_at = utc_now + seconds token_ttl_secs
  let pruned = StepUp.prune now pool
  granted ←
      from_db (StepUp.create pruned (token_hash ext token) session_id user_id scope expires_at)
  ok (
    record { token = token; expires_at = expires_at },
    record_log granted (some user_id) "auth.step_up.success" "user" (some user_id)
        (("scope", text scope) ∷ []),
  )

unfoldable pub issue : External → ℕ → ℕ → ℕ → List ℕ → ℕ → ℕ → StepUpRequest → Action StepUpResponse
issue ext totp_step_secs now utc_now bytes session_id user_id req pool =
    if is_valid_scope req.scope
    then and_then
        (verify_reauthentication ext totp_step_secs now user_id req.current_password req.totp_code)
        (λ _. transaction (store_grant ext now utc_now bytes session_id user_id req.scope)) pool
    else (err (validation "无效的再认证操作范围"), pool)

abbrev pub used_grant : String
used_grant = "再认证凭据已失效或已使用"

abbrev pub no_grant : String
no_grant = "需要先完成身份再认证"

-- `header` is the value of X-Step-Up-Token, where it is there and is text.
abbrev pub presented : Option String → Option String
presented none = none
presented (some token) = if byte_len token == 64 then some token else none

unfoldable pub use_grant : External → ℕ → ℕ → ℕ → String → String → Db → Api ((Unit {0}) × Db)
use_grant ext now session_id user_id scope token pool = do
  let consumed = StepUp.consume now pool (token_hash ext token) session_id user_id scope
  fail_if (not consumed.0) (forbidden used_grant)
  ok (
    tt,
    record_log consumed.1 (some user_id) "auth.step_up.consumed" "user" (some user_id)
        (("scope", text scope) ∷ []),
  )

abbrev with_token : Option String → (String → Action (Unit {0})) → Action (Unit {0})
with_token none f pool = (err (forbidden no_grant), pool)
with_token (some token) f pool = f token pool

unfoldable pub consume : External → ℕ → ℕ → ℕ → Option String → String → Action (Unit {0})
unfolding use_grant
consume ext now session_id user_id header scope =
    with_token (presented header)
      λ token. transaction (use_grant ext now session_id user_id scope token)
