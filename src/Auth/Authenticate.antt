-- ===== src/Auth/Authenticate.antt =====
-- `authenticate` of backend/src/auth.rs and the extractors of a handler: the actor, and the actor
-- with a permission. The user id in the trace is not modelled.
pub mod Sound
pub mod Permitted
pub mod Closed
pub mod Complete
use arc_admin.Prelude.{
  nat_eq, string_eq, Bool, Option, String, concat, err, fail_if, if◌then◌else◌, not, ok, ok_or, ℕ,
  ◌>>=◌, ◌>>◌,
}
use arc_admin.External.{External}
use arc_admin.Error.{Api, ApiError, unauthorized, forbidden, internal}
use arc_admin.Db.{Db}
use arc_admin.Action.{Action, and_then, check}
use arc_admin.Access.{ActorContext, DataScope, from_database, has_permission}
use arc_admin.Auth.Http.{Request, cookie}
use arc_admin.Auth.Token.{token_hash}
use arc_admin.Auth.Csrf.{validate_csrf, session_cookie_name, full_length}
use arc_admin.Repo.Sessions.Context.{SessionAuthContext, auth_context}

abbrev pub actor_of : SessionAuthContext → DataScope → ActorContext
actor_of context scope = record {
  user_id = context.user_id;
  session_id = context.session_id;
  organization_id = context.organization_id;
  department_id = context.department_id;
  data_scope = scope;
  permission_codes = context.permission_codes;
}

-- What the cookie presents.
unfoldable pub session_token : Bool → Request → Option String
unfolding cookie
session_token secure req = full_length (cookie req.cookies (session_cookie_name secure))

-- The context that the database has for the token; the look-up may write `last_seen_at`.
unfoldable pub find_context : External → ℕ → String → Action SessionAuthContext
unfolding token_hash auth_context
find_context ext now token pool =
    let found = auth_context now pool (token_hash ext token) in
    (ok_or found.0 unauthorized, found.1)

unfoldable pub admit : External → Bool → Request → SessionAuthContext → Api ActorContext
unfolding validate_csrf from_database
admit ext secure req context = do
  validate_csrf ext secure req context.csrf_token_hash
  scope ← ok_or (from_database context.data_scope) (internal "认证上下文包含无效的数据范围")
  ok (actor_of context scope)

unfoldable pub authenticate : External → Bool → ℕ → Request → Action ActorContext
unfolding session_token find_context admit
authenticate ext secure now req =
    and_then (check (λ pool. ok_or (session_token secure req) unauthorized)) λ token.
      and_then (find_context ext now token) λ context. check (λ pool. admit ext secure req context)

-- `RequirePermission::from_request_parts`, for the code of the marker type.
unfoldable pub require_permission : External → Bool → ℕ → Request → String → Action ActorContext
unfolding authenticate has_permission
require_permission ext secure now req code = and_then (authenticate ext secure now req) λ actor.
    check λ pool. do
      fail_if (not (has_permission actor code)) (forbidden (concat "缺少权限: " code))
      ok actor

-- `RequirePermission::require`
unfoldable pub require : ActorContext → String → Api (Unit {0})
unfolding has_permission
require actor code =
    if has_permission actor code then ok tt else err (forbidden (concat "缺少权限：" code))
