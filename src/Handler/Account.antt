-- ===== src/Handler/Account.antt =====
-- The handlers of backend/src/handlers/auth.rs that an authenticated user calls for the own account:
-- the permissions, the password, the logout, the step-up grants and the unlocked modules. The cookies
-- that a response clears are left out. `step_secs` is the TOTP step of the configuration, `utc_now` the
-- server's clock, and `bytes` the random bytes of a new token.
use arc_admin.Prelude.{nat_eq, string_eq, List, String, ok, ℕ}
use arc_admin.Access.{ActorContext}
use arc_admin.Action.{Action, and_then, check}
use arc_admin.Auth.Authenticate.{authenticate}
use arc_admin.Service.Auth.Account
use arc_admin.Service.Auth.Account.{ChangePasswordRequest}
use arc_admin.Service.Auth.{UserResponse}
use arc_admin.Service.Mfa.PasskeyFactors
use arc_admin.Service.Mfa.PasskeyFactors.{MfaStatusResponse}
use arc_admin.Service.StepUp
use arc_admin.Service.StepUp.{StepUpRequest, StepUpResponse}
use arc_admin.Service.ModuleUnlock
use arc_admin.Service.ModuleUnlock.{ModuleUnlockRequest, ModuleUnlockStatus}
use arc_admin.Handler
use arc_admin.Handler.{Call, status_no_content}

-- The handler's argument `ActorContext`, and its body.
abbrev authenticated {ℓ} : {A : Type ℓ} → Call → (ActorContext → Action A) → Action A
authenticated call body = and_then (authenticate call.ext call.secure call.now call.request) body

unfoldable logout : Call → Action ℕ
logout call = authenticated call λ auth_user. λ pool.
    (ok status_no_content, Account.logout call.now auth_user.user_id auth_user.session_id pool)

unfoldable me : Call → Action UserResponse
me call = authenticated call λ actor. check (λ pool. Account.me pool actor.user_id)

unfoldable pub change_password : Call → ChangePasswordRequest → Action ℕ
change_password call req = authenticated call λ actor.
    and_then (Handler.step_up call actor "auth.password.change") λ _.
      and_then (Account.change_password call.ext call.now call.salt actor.user_id req)
        λ _. check (λ pool. ok status_no_content)

unfoldable step_up : Call → ℕ → ℕ → List ℕ → StepUpRequest → Action StepUpResponse
step_up call step_secs utc_now bytes req = authenticated call λ actor.
    StepUp.issue call.ext step_secs call.now utc_now bytes actor.session_id actor.user_id req

unfoldable module_unlock_status : Call → String → Action ModuleUnlockStatus
module_unlock_status call module_name = authenticated call λ actor.
    check (λ pool. ModuleUnlock.status call.now pool actor.session_id actor.user_id module_name)

unfoldable module_unlock : Call → ℕ → ℕ → ModuleUnlockRequest → Action ModuleUnlockStatus
module_unlock call step_secs utc_now req = authenticated call λ actor.
    ModuleUnlock.issue call.ext step_secs call.now utc_now actor.session_id actor.user_id req

unfoldable me_permissions : Call → Action (List String)
me_permissions call = authenticated call λ actor. check (λ pool. ok actor.permission_codes)

unfoldable mfa_status : Call → Action MfaStatusResponse
mfa_status call =
    authenticated call λ actor. check (λ pool. ok (PasskeyFactors.status pool actor.user_id))
