-- ===== src/Auth/Authenticate/Permitted.antt =====
-- What an actor that `authenticate` (backend/src/auth.rs) returned may do.
use mathlib.Core.Path.{fun_ext}
use arc_admin.Prelude.{
  nat_eq, string_eq, Bool, Bool-cases, List, String, [], ap, arith, exists, exists-same,
  exists-weaken, fail_if-ok, false, fetch-exists, fetch-true, inl, inr, nat_beq_iff, not, ok,
  ok_or-eq-ok, refl, some, sym, true, ℕ, ◌&&◌, ◌==◌, ◌||◌, ◌∙◌, ◌∷◌, ◌≡◌,
}
use arc_admin.External.{External}
use arc_admin.Db.{Db, SessionRow, RoleRow, UserRoleRow, UserRow}
use arc_admin.Access.{ActorContext}
use arc_admin.Auth.Http.{Request, header, cookie}
use arc_admin.Auth.Token.{token_hash}
use arc_admin.Auth.Csrf.{validate_csrf, is_safe, full_length, csrf_cookie_name}
use arc_admin.Auth.Authenticate.{authenticate}
use arc_admin.Auth.Authenticate.Sound.{authenticate-IsAccepted}
use arc_admin.Repo.Users.{is_active}
use arc_admin.Repo.Permissions.{codes_of_roles, grants_to, permission_codes_by_user}
use arc_admin.Repo.Sessions.Context.{
  admits, holds, session_codes, is_owner, is_current, mfa_satisfied,
}

pub admits-true :
    (now : ℕ) (db : Db) (hash : String) (s : SessionRow)
    → admits now db hash s ≡ true
    → ((s.session_token_hash == hash) ≡ true)
      × (is_current now s ≡ true)
      × (exists (is_owner s) db.users ≡ true)
      × (mfa_satisfied db s.user_id ≡ true)
unfolding admits
admits-true now db hash s h = ground arith

holds-exists :
    (db : Db) (user_id id : ℕ) (roles : List RoleRow)
    → exists (λ (r : RoleRow). r.id == id && holds db user_id r) roles ≡ (
        exists (λ (r : RoleRow). r.id == id && r.is_active) roles
        && exists (λ (ur : UserRoleRow). ur.role_id == id && ur.user_id == user_id) db.user_roles)
unfolding holds exists
holds-exists db user_id id [] = refl
holds-exists db user_id id (r ∷ roles) = elim (Bool-cases (r.id == id)) [
  | inr other ↦ rw (other, holds-exists db user_id id roles)
  | inl same ↦
      let e : r.id ≡ id = (nat_beq_iff r.id id).0 same in
      let swap =
        exists-same (λ (ur : UserRoleRow). ur.user_id == user_id && ur.role_id == r.id)
          (λ (ur : UserRoleRow). ur.role_id == id && ur.user_id == user_id) db.user_roles
          (λ ur. rw e (ground arith)) in
      ground (arith, swap, holds-exists db user_id id roles)
]

is_owner-active :
    (s : SessionRow) (u : UserRow) → is_owner s u ≡ true → (u.id == s.user_id && is_active u) ≡ true
unfolding is_owner
is_owner-active s u h = ground arith

session_codes-granted :
    (db : Db) (s : SessionRow)
    → exists (is_owner s) db.users ≡ true
    → session_codes db s.user_id ≡ permission_codes_by_user db s.user_id
unfolding session_codes permission_codes_by_user grants_to
session_codes-granted db s h =
    let active =
      exists-weaken (is_owner s) (λ (u : UserRow). u.id == s.user_id && is_active u) db.users
        (is_owner-active s) h in
    ap (codes_of_roles db)
      (fun_ext (λ id. ground (arith, active, holds-exists db s.user_id id db.roles)))

-- An accepted actor has exactly the permissions that its user's active roles have in the database at
-- that moment.
pub authenticate-permissions :
    (ext : External) (secure : Bool) (now : ℕ) (req : Request) (pool : Db) {actor : ActorContext}
    → (authenticate ext secure now req pool).0 ≡ ok actor
    → actor.permission_codes ≡ permission_codes_by_user pool actor.user_id
authenticate-permissions ext secure now req pool h =
    let accepted = authenticate-IsAccepted ext secure now req pool h in
    let live =
      fetch-true (admits now pool (token_hash ext accepted.token)) pool.auth_sessions
        accepted.found in
    let (_, _, owner, _) =
      admits-true now pool (token_hash ext accepted.token) accepted.session live in
    accepted.codes
    ∙ session_codes-granted pool accepted.session owner
    ∙ ap (permission_codes_by_user pool) (sym accepted.same_user)

validate_csrf-ok :
    (ext : External) (secure : Bool) (req : Request) (hash : String)
    → is_safe req.method ≡ false
    → validate_csrf ext secure req hash ≡ ok tt
    → (token : String) × (full_length (header req.headers "x-csrf-token") ≡ some token)
      × (full_length (cookie req.cookies (csrf_cookie_name secure)) ≡ some token)
      × ((hash == token_hash ext token) ≡ true)
unfolding validate_csrf
validate_csrf-ok ext secure req hash unsafe h =
    let (sent, in_header, rest) =
      ok_or-eq-ok (full_length (header req.headers "x-csrf-token")) _ _ (rw unsafe at h) in
    let (kept, in_cookie, last) =
      ok_or-eq-ok (full_length (cookie req.cookies (csrf_cookie_name secure))) _ _ rest in
    let good = fail_if-ok (not (sent == kept) || not (token_hash ext sent == hash)) _ last in
    let values = (string_eq.decides sent kept).0 (ground (arith, good)) in
    let hashes = (string_eq.decides (token_hash ext sent) hash).0 (ground (arith, good)) in
    (
      sent,
      in_header,
      in_cookie ∙ ap (λ t. some t) (sym values),
      (string_eq.decides hash (token_hash ext sent)).1 (sym hashes),
    )

-- A request that may change something is accepted only with the token of its session in the header
-- and, the same, in the cookie.
pub authenticate-csrf :
    (ext : External) (secure : Bool) (now : ℕ) (req : Request) (pool : Db) {actor : ActorContext}
    → is_safe req.method ≡ false
    → (authenticate ext secure now req pool).0 ≡ ok actor
    → (token : String) × (full_length (header req.headers "x-csrf-token") ≡ some token)
      × (full_length (cookie req.cookies (csrf_cookie_name secure)) ≡ some token)
      × (exists
            (λ (s : SessionRow).
              s.id == actor.session_id && s.csrf_token_hash == token_hash ext token)
            pool.auth_sessions
          ≡ true)
authenticate-csrf ext secure now req pool unsafe h =
    let accepted = authenticate-IsAccepted ext secure now req pool h in
    let s = accepted.session in
    let (token, sent, kept, same) =
      validate_csrf-ok ext secure req s.csrf_token_hash unsafe accepted.csrf in
    let this = (nat_beq_iff s.id accepted.session.id).1 refl in
    let there =
      fetch-exists (admits now pool (token_hash ext accepted.token))
        (λ (r : SessionRow). r.id == s.id && r.csrf_token_hash == token_hash ext token)
        pool.auth_sessions accepted.found (rw (this, same) refl) in
    (token, sent, kept, rw accepted.same_session there)
