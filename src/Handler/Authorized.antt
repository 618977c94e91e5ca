-- ===== src/Handler/Authorized.antt =====
-- What a handler has asked for before it calls its service, and a step-up leaves.
use arc_admin.Prelude.{
  nat_eq, string_eq, >>=-eq-ok, Bool, List, Option, Option-cases, String, ap, arith, concat, elem,
  fail_if, fail_if-eq-ok, inl, inr, none, not, ok, ok_injective, ok_or, refl, some, sym, true, ℕ,
  ◌>>=◌, ◌>>◌, ◌∙◌, ◌≡◌,
}
use arc_admin.External.{External}
use arc_admin.Auth.Http.{Request, header}
use arc_admin.Auth.Authenticate.{session_token, find_context, admit}
use arc_admin.Auth.Authenticate.Permitted.{authenticate-permissions}
use arc_admin.Repo.Sessions.Context.{SessionAuthContext, auth_context, touch}
use arc_admin.Repo.Permissions.{permission_codes_by_user}
use arc_admin.Service.StepUp.{consume, presented}
use arc_admin.Service.StepUp.OneUse.{opened, after_use, use_grant_cases}
use arc_admin.Action.{transaction-done}
use arc_admin.Handler.{commit, step_up_header}
use arc_admin.Error.{unauthorized, Api, forbidden}
use arc_admin.Db.{Db, SessionRow}
use arc_admin.Repo.StepUp
use arc_admin.Repo.AuditLogs.{record_log}
use arc_admin.Access.{ActorContext, has_permission}
use arc_admin.Action.{Action, and_then, check, and_then-done, check-done}
use arc_admin.Auth.Authenticate.{authenticate, require_permission}
use arc_admin.Handler.{Call, permitted, step_up}

check_permission : String → ActorContext → Db → Api ActorContext
check_permission code actor pool = do
  fail_if (not (has_permission actor code)) (forbidden (concat "缺少权限: " code))
  ok actor

check_permission-ok :
    (code : String) (actor : ActorContext) (pool : Db) {same : ActorContext}
    → check_permission code actor pool ≡ ok same
    → (has_permission actor code ≡ true) × (actor ≡ same)
unfolding check_permission
check_permission-ok code actor pool h =
    let (has, done) =
      fail_if-eq-ok (not (has_permission actor code)) (forbidden (concat "缺少权限: " code)) (ok actor)
        h in
    (ground (arith, has), ok_injective done)

require_permission-done :
    (call : Call) (code : String) (pool : Db) {actor : ActorContext} {left : Db}
    → require_permission call.ext call.secure call.now call.request code pool ≡ (ok actor, left)
    → (authenticate call.ext call.secure call.now call.request pool ≡ (ok actor, left))
      × (has_permission actor code ≡ true)
unfolding require_permission check_permission
require_permission-done call code pool {actor} {left} h =
    let first = authenticate call.ext call.secure call.now call.request in
    let (found, mid, known, checked) =
      and_then-done first (λ a. check (check_permission code a)) pool h in
    let (passed, same) = check-done (check_permission code found) mid checked in
    let (has, e) = check_permission-ok code found mid passed in
    (rw (sym e, same) known, rw e at has)

-- What does not read the table of the sessions, an authentication that succeeds leaves.
module _ {X : Type 0} (f : Db → X)
    (keeps : (db : Db) (sessions : List SessionRow)
      → f (record db { auth_sessions = sessions }) ≡ f db) where
  touch-keeps :
      (now : ℕ) (db : Db) (context : Option SessionAuthContext) → f (touch now db context) ≡ f db
  unfolding touch
  touch-keeps now db none = refl
  touch-keeps now db (some context) = keeps db _

  find_context-keeps :
      (ext : External) (now : ℕ) (token : String) (db : Db)
      → f (find_context ext now token db).1 ≡ f db
  unfolding find_context auth_context
  find_context-keeps ext now token db = touch-keeps now db _

  pub authenticate-keeps :
      (ext : External) (secure : Bool) (now : ℕ) (req : Request) (pool : Db) {actor : ActorContext}
      {left : Db}
      → authenticate ext secure now req pool ≡ (ok actor, left)
      → f left ≡ f pool
  unfolding authenticate
  authenticate-keeps ext secure now req pool h =
      let admitted = λ (context : SessionAuthContext). check (λ db. admit ext secure req context) in
      let presents = λ (db : Db). ok_or (session_token secure req) unauthorized in
      let (token, same, given, rest) =
        and_then-done (check presents) (λ token. and_then (find_context ext now token) admitted)
          pool h in
      let (_, first) = check-done presents pool given in
      let (context, mid, found, rest') =
        and_then-done (find_context ext now token) admitted same rest in
      let (_, last) = check-done (λ db. admit ext secure req context) mid rest' in
      ap f last
      ∙ ap (λ (r : Api SessionAuthContext × Db). f r.1) (sym found)
      ∙ find_context-keeps ext now token same
      ∙ ap f first

-- The request was authenticated as the actor, whose roles have the permission, and it presented a
-- token of exactly one grant of the scope that could be used.
pub record IsAuthorized (call : Call) (code scope : String) (pool : Db) (actor : ActorContext)
    : Type 0 where
  pub known : (authenticate call.ext call.secure call.now call.request pool).0 ≡ ok actor
  pub has : elem code (permission_codes_by_user pool actor.user_id) ≡ true
  pub token : String
  pub presents : presented (header call.request.headers step_up_header) ≡ some token
  pub live : opened call.ext call.now actor.session_id actor.user_id scope token pool ≡ 1

-- what an accepted step-up leaves
pub confirmed_lem :
    (call : Call) (actor : ActorContext) (scope : String) (pool : Db) {left : Db}
    → step_up call actor scope pool ≡ (ok tt, left)
    → (token : String) × (presented (header call.request.headers step_up_header) ≡ some token)
      × (opened call.ext call.now actor.session_id actor.user_id scope token pool ≡ 1)
      × (left ≡ after_use call.ext call.now actor.session_id actor.user_id scope token pool)
unfolding consume
confirmed_lem call actor scope pool h =
    elim (Option-cases (presented (header call.request.headers step_up_header))) [
      | inl missing ↦ absurd (ground (arith, rw missing at h))
      | inr (token, given) ↦
          elim (use_grant_cases call.ext call.now actor.session_id actor.user_id scope token pool) [
            | inl (one, used) ↦ (
              token,
              given,
              one,
              sym (ap (λ (r : Api (Unit {0}) × Db). r.1) (rw (given, used) at h)),
            )
            | inr (_, refused) ↦ absurd (ground (arith, rw (given, refused) at h))
          ]
    ]

after_use-accounts :
    (ext : External) (now session user : ℕ) (scope token : String) (db : Db)
    → ((user_id : ℕ)
        → permission_codes_by_user (after_use ext now session user scope token db) user_id
          ≡ permission_codes_by_user db user_id)
      × ((after_use ext now session user scope token db).roles ≡ db.roles)
unfolding record_log StepUp.consume permission_codes_by_user arc_admin.Repo.Permissions.grants_to
after_use-accounts ext now session user scope token db = (λ user_id. refl, refl)

-- A handler that asks for a permission and a step-up has succeeded.
pub sensitive-done :
    {A : Type 0} (call : Call) (code scope : String) (service : ActorContext → Action A) (pool : Db)
    {a : A} {left : Db}
    → permitted call code (λ actor. and_then (step_up call actor scope) λ _. service actor) pool
      ≡ (ok a, left)
    → (actor : ActorContext) × (mid : Db) × IsAuthorized call code scope pool actor
      × (service actor mid ≡ (ok a, left))
      × ((user_id : ℕ)
          → permission_codes_by_user mid user_id ≡ permission_codes_by_user pool user_id)
      × (mid.roles ≡ pool.roles)
unfolding has_permission permission_codes_by_user arc_admin.Repo.Permissions.grants_to
sensitive-done call code scope service pool h =
    let (actor, found, allowed, rest) =
      and_then-done (require_permission call.ext call.secure call.now call.request code)
        (λ (actor : ActorContext). and_then (step_up call actor scope) λ _. service actor) pool h in
    let (known, has) = require_permission-done call code pool allowed in
    let (_, mid, confirmed, done) =
      and_then-done (step_up call actor scope) (λ _. service actor) found rest in
    let (token, presents, live, e) = confirmed_lem call actor scope found confirmed in
    let granted =
      authenticate-keeps Db.step_up_tokens (λ db sessions. refl) call.ext call.secure call.now
        call.request pool known in
    let kept = λ (user_id : ℕ).
      authenticate-keeps (λ db. permission_codes_by_user db user_id) (λ db sessions. refl) call.ext
        call.secure call.now call.request pool known in
    let roles =
      authenticate-keeps Db.roles (λ db sessions. refl) call.ext call.secure call.now call.request
        pool known in
    let accepted = ap (λ (r : Api ActorContext × Db). r.0) known in
    let codes = authenticate-permissions call.ext call.secure call.now call.request pool accepted in
    let (codes_after, roles_after) =
      after_use-accounts call.ext call.now actor.session_id actor.user_id scope token found in
    (
      actor,
      mid,
      record {
        known = accepted;
        has = rw codes at has;
        token = token;
        presents = presents;
        live = rw granted at live;
      },
      done,
      λ user_id.
          ap (λ (d : Db). permission_codes_by_user d user_id) e
          ∙ codes_after user_id
          ∙ kept user_id,
      ap Db.roles e ∙ roles_after ∙ roles,
    )

abbrev pub answered : {A : Type 0} → A → Api A
answered a = ok a

-- a service that succeeded in its transaction
pub commit-ok :
    (service : Db → Api Db) (pool : Db) (status : ℕ) {left : Db}
    → commit status service pool ≡ (ok status, left)
    → service pool ≡ ok left
commit-ok service pool status h =
    let finish = λ (db : Db). answered {A = ℕ × Db} (status, db) in
    let (db, served, e) =
      >>=-eq-ok (service pool) finish
        (transaction-done (λ (db : Db). service db >>= finish) pool h) in
    rw (ap (λ r. r.1) (ok_injective e)) at served
