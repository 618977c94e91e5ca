-- ===== src/Handler/SignedOut.antt =====
-- What a change of the password through the handler (backend/src/handlers/auth.rs) has asked for, and
-- whom it signs out.
use arc_admin.Prelude.{nat_eq, string_eq, String, ap, ok, refl, some, ℕ, ◌≡◌, ◌≢◌}
use arc_admin.Error.{Api}
use arc_admin.Db.{Db}
use arc_admin.Access.{ActorContext}
use arc_admin.Action.{Action, and_then, and_then-done, check, check-done}
use arc_admin.Auth.Http.{Request, header}
use arc_admin.Auth.Authenticate.{authenticate}
use arc_admin.Service.StepUp.{presented}
use arc_admin.Service.StepUp.OneUse.{opened}
use arc_admin.Service.Auth.Account
use arc_admin.Service.Auth.Account.{ChangePasswordRequest}
use arc_admin.Service.Auth.SignedOut.{change_password-signed_out}
use arc_admin.Handler
use arc_admin.Handler.{Call, step_up_header, status_no_content}
use arc_admin.Handler.Account.{change_password}
use arc_admin.Handler.Authorized.{confirmed_lem, authenticate-keeps, answered}

module _ (call : Call) (req : ChangePasswordRequest) where
  changed : ActorContext → Action ℕ
  changed actor =
      and_then (Account.change_password call.ext call.now call.salt actor.user_id req)
        λ _. check (λ pool. ok status_no_content)

  changed-done :
      (actor : ActorContext) (pool : Db) {left : Db}
      → changed actor pool ≡ (ok status_no_content, left)
      → Account.change_password call.ext call.now call.salt actor.user_id req pool ≡ (ok tt, left)
  unfolding changed
  changed-done actor pool h =
      let answer = λ (_ : Unit {0}). check (λ (db : Db). answered status_no_content) in
      let (_, mid, done, last) =
        and_then-done (Account.change_password call.ext call.now call.salt actor.user_id req) answer
          pool h in
      let (_, same) = check-done (λ (db : Db). answered status_no_content) mid last in rw same done

  -- A change of the password that the handler answers with success was asked for by an authenticated
  -- actor with a live grant for it, and in the database that it leaves no request is authenticated as
  -- that user.
  pub change_own_password-signed_out :
      (pool : Db) {left : Db}
      → change_password call req pool ≡ (ok status_no_content, left)
      → (actor : ActorContext) × (token : String) × ((authenticate call.ext call.secure call.now
            call.request pool).0
          ≡ ok actor)
        × (presented (header call.request.headers step_up_header) ≡ some token)
        × (opened call.ext call.now actor.session_id actor.user_id "auth.password.change" token pool
            ≡ 1)
        × ((later : ℕ) (request : Request) (other : ActorContext)
            → (authenticate call.ext call.secure later request left).0 ≡ ok other
            → other.user_id ≢ actor.user_id)
  unfolding change_password changed
  change_own_password-signed_out pool h =
      let service = λ (actor : ActorContext).
        and_then (Handler.step_up call actor "auth.password.change") λ _. changed actor in
      let (actor, found, known, rest) =
        and_then-done (authenticate call.ext call.secure call.now call.request) service pool h in
      let (_, mid, confirmed, last) =
        and_then-done (Handler.step_up call actor "auth.password.change") (λ _. changed actor) found
          rest in
      let (token, presents, live, _) =
        confirmed_lem call actor "auth.password.change" found confirmed in
      let granted =
        authenticate-keeps Db.step_up_tokens (λ db sessions. refl) call.ext call.secure call.now
          call.request pool known in
      (
        actor,
        token,
        ap (λ (r : Api ActorContext × Db). r.0) known,
        presents,
        rw granted at live,
        λ later request other.
            change_password-signed_out call.ext call.now call.salt actor.user_id req mid call.secure
              later request (changed-done actor mid last),
      )
