-- ===== src/Handler.antt =====
-- The handlers of backend/src/handlers that change users, roles and departments, and those of the own
-- account: the permission, then the step-up or the unlocked module, then the service. The path and the body of the request are
-- arguments; a request in which they cannot be read is refused by axum.
pub mod Users
pub mod Roles
pub mod Departments
pub mod Account
pub mod Authorized
pub mod Removal
pub mod Granted
pub mod SignedOut
use arc_admin.Prelude.{nat_eq, string_eq, Bool, List, String, if◌then◌else◌, ok, ℕ, ◌>>=◌}
use arc_admin.External.{External}
use arc_admin.Error.{Api}
use arc_admin.Db.{Db}
use arc_admin.Access.{ActorContext}
use arc_admin.Action.{Action, transaction, and_then, check}
use arc_admin.Auth.Http.{Request, header}
use arc_admin.Auth.Authenticate.{require_permission}
use arc_admin.Service.StepUp
use arc_admin.Service.ModuleUnlock

-- A request with what the server takes from its state and surroundings: `now` is the time of the
-- database, `salt` that of a new password's hash.
pub record Call : Type 0 where
  pub ext : External
  pub secure : Bool
  pub now : ℕ
  pub salt : List ℕ
  pub request : Request

-- `StatusCode::CREATED` and `StatusCode::NO_CONTENT`
abbrev pub status_created : ℕ
status_created = 201

abbrev pub status_no_content : ℕ
status_no_content = 204

-- `services::step_up::HEADER`, in the lower case of a header map
abbrev pub step_up_header : String
step_up_header = "x-step-up-token"

-- The handler's argument `RequirePermission` of a code, and its body.
abbrev pub permitted {ℓ} : {A : Type ℓ} → Call → String → (ActorContext → Action A) → Action A
permitted call code body =
    and_then (require_permission call.ext call.secure call.now call.request code) body

-- `services::step_up::consume`, as the handlers call it
abbrev pub step_up : Call → ActorContext → String → Action (Unit {0})
step_up call actor scope =
    StepUp.consume call.ext call.now actor.session_id actor.user_id
      (header call.request.headers step_up_header) scope

-- `services::module_unlock::require`, as the handlers call it
abbrev pub unlocked : Call → ActorContext → String → Action (Unit {0})
unlocked call actor module_name =
    check (λ pool. ModuleUnlock.require call.now pool actor.session_id actor.user_id module_name)

-- The step-up where the request needs it, and the unlocked module otherwise.
abbrev pub confirmed : Call → ActorContext → Bool → String → String → Action (Unit {0})
confirmed call actor needs_step_up scope module_name =
    if needs_step_up then step_up call actor scope else unlocked call actor module_name

-- A service that has its transaction for its whole body, and the status of its success.
abbrev pub commit : ℕ → (Db → Api Db) → Action ℕ
commit status service = transaction (λ pool. service pool >>= λ db. ok (status, db))

-- `.map(|a| (StatusCode::CREATED, Json(a)))`
abbrev pub created {ℓ} : {A : Type ℓ} → Action A → Action (ℕ × A)
created action = and_then action λ a. check (λ pool. ok (status_created, a))
