-- ===== src/Auth/Authenticate/Sound.antt =====
-- What a request that `authenticate` (backend/src/auth.rs) accepted has presented.
use arc_admin.Prelude.{
  nat_eq, string_eq, >>=-eq-ok, Bool, Option, Option-cases, String, ap, arith, fetch_optional, inl,
  inr, none, ok, ok_injective, ok_or, ok_or-eq-ok, some, some_injective, sym, ℕ, ◌∙◌, ◌≡◌,
}
use arc_admin.External.{External}
use arc_admin.Error.{unauthorized}
use arc_admin.Db.{Db, SessionRow}
use arc_admin.Action.{and_then, check, and_then-eq-ok}
use arc_admin.Access.{ActorContext, from_database}
use arc_admin.Auth.Http.{Request}
use arc_admin.Auth.Token.{token_hash}
use arc_admin.Auth.Csrf.{validate_csrf}
use arc_admin.Auth.Authenticate.{session_token, find_context, admit, authenticate}
use arc_admin.Repo.Sessions.Context.{
  SessionAuthContext, admits, auth_context, context_of, context_with, session_codes, is_owner,
}

ok_or-got : {A : Type 0} (o : Option A) {a : A} → ok_or {A = A} o unauthorized ≡ ok a → o ≡ some a
ok_or-got none h = cc
ok_or-got (some a) h = ground arith

-- The session and the owner that a context stands for.
context_with-some :
    (db : Db) (s : SessionRow) {context : SessionAuthContext}
    → context_of db (some s) ≡ some context
    → (context.user_id ≡ s.user_id)
      × (context.session_id ≡ s.id)
      × (context.csrf_token_hash ≡ s.csrf_token_hash)
      × (context.permission_codes ≡ session_codes db s.user_id)
unfolding context_of context_with
context_with-some db s h = elim (Option-cases (fetch_optional (is_owner s) db.users)) [
  | inl missing ↦ ground (arith, missing)
  | inr (u, found) ↦
      let same = sym (some_injective (rw found at h)) in
      (
        ap SessionAuthContext.user_id same,
        ap SessionAuthContext.session_id same,
        ap SessionAuthContext.csrf_token_hash same,
        ap SessionAuthContext.permission_codes same,
      )
]

-- What an accepted request has presented, and the session that it belongs to.
pub record IsAccepted (ext : External) (secure : Bool) (now : ℕ) (req : Request) (pool : Db)
    (actor : ActorContext) : Type 0 where
  pub token : String
  pub session : SessionRow
  pub presents : session_token secure req ≡ some token
  pub found :
      fetch_optional (admits now pool (token_hash ext token)) pool.auth_sessions ≡ some session
  pub same_user : actor.user_id ≡ session.user_id
  pub same_session : actor.session_id ≡ session.id
  pub csrf : validate_csrf ext secure req session.csrf_token_hash ≡ ok tt
  pub codes : actor.permission_codes ≡ session_codes pool session.user_id

admit-ok :
    (ext : External) (secure : Bool) (req : Request) (context : SessionAuthContext)
    {actor : ActorContext}
    → admit ext secure req context ≡ ok actor
    → (validate_csrf ext secure req context.csrf_token_hash ≡ ok tt)
      × (actor.user_id ≡ context.user_id)
      × (actor.session_id ≡ context.session_id)
      × (actor.permission_codes ≡ context.permission_codes)
unfolding admit
admit-ok ext secure req context h =
    let (_, csrf, rest) = >>=-eq-ok (validate_csrf ext secure req context.csrf_token_hash) _ h in
    let (scope, known, done) = ok_or-eq-ok (from_database context.data_scope) _ _ rest in
    let same = sym (ok_injective done) in
    (
      csrf,
      ap ActorContext.user_id same,
      ap ActorContext.session_id same,
      ap ActorContext.permission_codes same,
    )

pub authenticate-IsAccepted :
    (ext : External) (secure : Bool) (now : ℕ) (req : Request) (pool : Db) {actor : ActorContext}
    → (authenticate ext secure now req pool).0 ≡ ok actor
    → IsAccepted ext secure now req pool actor
unfolding authenticate find_context auth_context
authenticate-IsAccepted ext secure now req pool h =
    let lookup = λ (token : String).
      and_then (find_context ext now token) λ context. check (λ db. admit ext secure req context) in
    let (token, given, rest) =
      and_then-eq-ok (check (λ db. ok_or (session_token secure req) unauthorized)) lookup pool h in
    let (context, known, last) = and_then-eq-ok (find_context ext now token) _ pool rest in
    let row = fetch_optional (admits now pool (token_hash ext token)) pool.auth_sessions in
    let there = ok_or-got (context_of pool row) known in
    let (csrf, user, id, codes) = admit-ok ext secure req context last in
    elim (Option-cases row) [
      | inl missing ↦ absurd (ground (arith, rw missing at there))
      | inr (s, found) ↦
          let (user', id', hash, codes') = context_with-some pool s (rw found at there) in
          record {
            token = token;
            session = s;
            presents = ok_or-got (session_token secure req) given;
            found = found;
            same_user = user ∙ user';
            same_session = id ∙ id';
            csrf = rw hash at csrf;
            codes = codes ∙ codes';
          }
    ]
