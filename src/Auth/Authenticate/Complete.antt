-- ===== src/Auth/Authenticate/Complete.antt =====
-- Which requests `authenticate` (backend/src/auth.rs) accepts: whoever presents a session that is
-- there, current and owned, with its CSRF token, is authenticated as its user.
use arc_admin.Prelude.{
  nat_eq, string_eq, Bool, Bool-cases, String, ap, exists, exists-fetch, false, fetch-true,
  fetch_optional, if◌then◌else◌, inl, inr, ok, refl, some, true, ℕ, ◌==◌, ◌||◌, ◌≡◌,
}
use arc_admin.External.{External}
use arc_admin.Db.{Db, SessionRow}
use arc_admin.Access.{
  ActorContext, DataScope, from_database, all, organization, department_and_children, department,
  self_only,
}
use arc_admin.Auth.Http.{Request, header, cookie}
use arc_admin.Auth.Token.{token_hash}
use arc_admin.Auth.Csrf.{validate_csrf, full_length, is_safe, csrf_cookie_name}
use arc_admin.Auth.Authenticate.{session_token, find_context, admit, authenticate, actor_of}
use arc_admin.Auth.Authenticate.Permitted.{admits-true}
use arc_admin.Repo.Sessions.Context.{
  SessionAuthContext, admits, auth_context, context_of, context_with, widest_scope, any_role,
  is_owner,
}

scope_known :
    (widest wide narrow single : Bool)
    → (scope : DataScope) × (from_database (
          if widest
          then "all"
          else if wide
          then "organization"
          else if narrow
          then "department_and_children"
          else if single
          then "department"
          else "self")
        ≡ some scope)
unfolding from_database
scope_known true wide narrow single = (all, refl)
scope_known false true narrow single = (organization, refl)
scope_known false false true single = (department_and_children, refl)
scope_known false false false true = (department, refl)
scope_known false false false false = (self_only, refl)

-- the scope of a context is always one that the code knows
widest_scope-known :
    (db : Db) (user_id : ℕ)
    → (scope : DataScope) × (from_database (widest_scope db user_id) ≡ some scope)
unfolding widest_scope from_database
widest_scope-known db user_id =
    scope_known (any_role db user_id (λ r. r.code == "super_admin" || r.data_scope == "all"))
      (any_role db user_id (λ r. r.data_scope == "organization"))
      (any_role db user_id (λ r. r.data_scope == "department_and_children"))
      (any_role db user_id (λ r. r.data_scope == "department"))

context_of-some :
    (db : Db) (s : SessionRow)
    → exists (is_owner s) db.users ≡ true
    → (context : SessionAuthContext) × (context_of db (some s) ≡ some context)
      × (context.user_id ≡ s.user_id)
      × (context.csrf_token_hash ≡ s.csrf_token_hash)
      × (context.data_scope ≡ widest_scope db s.user_id)
unfolding context_of context_with
context_of-some db s h =
    let (u, found, _) = exists-fetch (is_owner s) db.users h in
    (_, ap (context_with db s) found, refl, refl, refl)

pub validate_csrf-same :
    (ext : External) (secure : Bool) (req : Request) (token : String)
    → full_length (header req.headers "x-csrf-token") ≡ some token
    → full_length (cookie req.cookies (csrf_cookie_name secure)) ≡ some token
    → validate_csrf ext secure req (token_hash ext token) ≡ ok tt
unfolding validate_csrf
validate_csrf-same ext secure req token sent kept = elim (Bool-cases (is_safe req.method)) [
  | inl safe ↦ rw safe
  | inr unsafe ↦
      let same = (string_eq.decides token token).1 refl in
      let hash = (string_eq.decides (token_hash ext token) (token_hash ext token)).1 refl in
      rw (unsafe, sent, kept, same, hash)
]

admit_complete :
    (ext : External) (secure : Bool) (req : Request) (context : SessionAuthContext)
    (scope : DataScope)
    → validate_csrf ext secure req context.csrf_token_hash ≡ ok tt
    → from_database context.data_scope ≡ some scope
    → admit ext secure req context ≡ ok (actor_of context scope)
unfolding admit
admit_complete ext secure req context scope passes reads = rw (passes, reads)

-- A request that presents the token of a current session of an active account, and the CSRF token of
-- that session in the header and the cookie, is accepted as the account's.
pub authenticate_complete :
    (ext : External) (secure : Bool) (now : ℕ) (req : Request) (pool : Db)
    (token csrf_token : String) (s : SessionRow)
    → session_token secure req ≡ some token
    → full_length (header req.headers "x-csrf-token") ≡ some csrf_token
    → full_length (cookie req.cookies (csrf_cookie_name secure)) ≡ some csrf_token
    → fetch_optional (admits now pool (token_hash ext token)) pool.auth_sessions ≡ some s
    → s.csrf_token_hash ≡ token_hash ext csrf_token
    → (actor : ActorContext) × ((authenticate ext secure now req pool).0 ≡ ok actor)
      × (actor.user_id ≡ s.user_id)
unfolding authenticate find_context auth_context admit
authenticate_complete ext secure now req pool token csrf_token s presents sent kept found same =
    let hash = token_hash ext token in
    let (_, _, owner, _) =
      admits-true now pool hash s (fetch-true (admits now pool hash) pool.auth_sessions found) in
    let (context, there, user, csrf, scope) = context_of-some pool s owner in
    let (known, reads) = widest_scope-known pool s.user_id in
    let passes : validate_csrf ext secure req context.csrf_token_hash ≡ ok tt =
      rw (csrf, same) (validate_csrf-same ext secure req csrf_token sent kept) in
    let reads_scope : from_database context.data_scope ≡ some known = rw scope reads in
    let admitted = admit_complete ext secure req context known passes reads_scope in
    (actor_of context known, rw (presents, found, there, admitted), user)
