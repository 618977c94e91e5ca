-- ===== src/Service/Login/Sound.antt =====
-- What a login that succeeded, `login` of backend/src/services/auth.rs, rests on.
use arc_admin.Prelude.{
  nat_eq, string_eq, >>=-eq-ok, Bool, Bool-cases, Option, String, ap, arith, err, false, inl, inr,
  map_err, none, not, ok, ok_injective, refl, some, sym, trim, true, ℕ, ◌&&◌, ◌==◌, ◌>>=◌, ◌∙◌, ◌≡◌,
  ◌≢◌,
}
use arc_admin.External.{External}
use arc_admin.Error.{Api, internal}
use arc_admin.Db.{Db, UserRow}
use arc_admin.Action.{check, transaction, Action, and_then, and_then-done, check-done}
use arc_admin.Repo.Users
use arc_admin.Repo.Mfa
use arc_admin.Service.Auth.{
  AuthSessionConfig, LoginThrottleKeys, LoginResponse, LoginSessionOutcome, throttle_keys,
}
use arc_admin.Service.Auth.Throttle.{locked_until, record_failed_login}
use arc_admin.Service.Auth.LoginSession.{create_login_session}
use arc_admin.Service.Mfa.Begin.{
  begin_login, needs_factor, methods_of, start_enrollment, start_challenge, enrollment_response,
  challenge_response,
}
use arc_admin.Service.Login.{
  LoginRequest, LoginOutcome, LoginBytes, login, signed_in, factor_required, verify_login_password,
  is_authenticated, refuse_login, accept_login, answered, or_session, unless_locked, failure, id_of,
}

-- an action that answers with a challenge does not answer with none
challenge-some :
    {V : Type 0} (first : Action (Unit {0})) (view : Api V) (answer : V → LoginResponse) (pool : Db)
    {left : Db}
    → and_then first (λ _. check λ db. (view >>= λ v. ok (some (answer v)))) pool ≢ (ok none, left)
challenge-some {V = V} first view answer pool h =
    let (_, mid, _, rest) =
      and_then-done first (λ _. check λ db. (view >>= λ v. ok (some (answer v)))) pool h in
    let (v, _, done) =
      >>=-eq-ok view (λ v. ok (some (answer v)))
        (check-done (λ (db : Db). view >>= λ v. ok (some (answer v))) mid rest).0 in
    ground (arith, ok_injective done)

failure-err :
    (utc_now : ℕ) (lock : Option ℕ) {outcome : LoginOutcome} → failure utc_now lock ≢ ok outcome
failure-err utc_now none h = cc
failure-err utc_now (some lock) h = cc

abbrev signed : LoginSessionOutcome → Api LoginOutcome
signed session = ok (signed_in session)

abbrev session_of : LoginSessionOutcome → Api LoginOutcome → LoginSessionOutcome
session_of other (ok (signed_in session)) = session
session_of other (ok (factor_required response)) = other
session_of other (err e) = other

module _ (ext : External) (step now utc_now : ℕ) (config : AuthSessionConfig)
    (bytes : LoginBytes) where
  -- without a challenge nothing has changed, and the account has no second factor
  begin_login-none :
      (user : UserRow) (persistent : Bool) (login : LoginThrottleKeys) (pool : Db) {left : Db}
      → begin_login ext step now utc_now bytes.challenge user persistent login pool
        ≡ (ok none, left)
      → (needs_factor (Mfa.summary pool user.id) ≡ false) × (left ≡ pool)
  unfolding begin_login
  begin_login-none user persistent login pool h =
      let summary = Mfa.summary pool user.id in
      elim (Bool-cases (needs_factor summary)) [
        | inr free ↦ (free, ap (λ r. r.1) (sym (rw free at h)))
        | inl needs ↦ elim (Bool-cases (summary.is_required && not summary.has_totp)) [
          | inl enrolls ↦ absurd (
              challenge-some
                (transaction
                  (start_enrollment ext now utc_now bytes.challenge user persistent login))
                (map_err internal (ext.totp_enrollment step bytes.challenge.secret user.username))
                (enrollment_response bytes.challenge.token) pool (rw (needs, enrolls) at h))
          | inr challenges ↦ absurd (
              challenge-some
                (transaction (
                  start_challenge ext now utc_now bytes.challenge user persistent login
                    (methods_of summary)))
                (ok tt) (λ _. challenge_response bytes.challenge.token (methods_of summary)) pool
                (rw (needs, challenges) at h))
        ]
      ]

  refuse_login-err :
      (keys : LoginThrottleKeys) (row : Option UserRow) (pool : Db) {outcome : LoginOutcome}
      {left : Db}
      → refuse_login now utc_now config keys row pool ≢ (ok outcome, left)
  unfolding refuse_login
  refuse_login-err keys row pool h =
      failure-err utc_now (record_failed_login now pool config keys (id_of row)).0 (ap (λ r. r.0) h)

  is_authenticated-some :
      (password : String) (row : UserRow)
      → is_authenticated ext password (some row) ≡ true
      → ((row.status == "active") ≡ true)
        × (verify_login_password ext password row.password_hash ≡ true)
  unfolding is_authenticated
  is_authenticated-some password row h = ground arith

  unless_locked-ok :
      (lock : Option ℕ) (rest : Action LoginOutcome) (pool : Db) {outcome : LoginOutcome}
      {left : Db}
      → unless_locked utc_now lock rest pool ≡ (ok outcome, left)
      → (lock ≡ none) × (rest pool ≡ (ok outcome, left))
  unless_locked-ok none rest pool h = (refl, h)
  unless_locked-ok (some lock) rest pool h = cc

  answered-ok :
      (req : LoginRequest) (keys : LoginThrottleKeys) (found : Option UserRow) (pool : Db)
      {outcome : LoginOutcome} {left : Db}
      → answered ext step now utc_now config bytes req keys found pool ≡ (ok outcome, left)
      → (row : UserRow) × (found ≡ some row)
        × (is_authenticated ext req.password (some row) ≡ true)
        × (accept_login ext step now utc_now config bytes req.remember keys row pool
            ≡ (ok outcome, left))
  answered-ok req keys none pool h = absurd (refuse_login-err keys none pool h)
  answered-ok req keys (some row) pool h =
      elim (Bool-cases (is_authenticated ext req.password (some row))) [
        | inl good ↦ (row, refl, good, rw good at h)
        | inr bad ↦ absurd (refuse_login-err keys (some row) pool (rw bad at h))
      ]

  or_session-signed_in :
      (persistent : Bool) (keys : LoginThrottleKeys) (row : UserRow)
      (response : Option LoginResponse) (mid : Db) {session : LoginSessionOutcome} {left : Db}
      → or_session ext now utc_now config bytes persistent keys row response mid
        ≡ (ok (signed_in session), left)
      → (response ≡ none)
        × (create_login_session ext now utc_now config persistent keys bytes.tokens row mid
            ≡ (ok session, left))
  or_session-signed_in persistent keys row none mid h =
      let answers = λ (opened : LoginSessionOutcome) (db : Db). signed opened in
      let (opened, after, created, rest) =
        and_then-done (create_login_session ext now utc_now config persistent keys bytes.tokens row)
          (λ opened. check (answers opened)) mid h in
      let (answered, same) = check-done (answers opened) after rest in
      (refl, created ∙ rw (ap (session_of opened) answered, same) refl)
  or_session-signed_in persistent keys row (some response) mid h = cc

  -- The account that the login names: it is active, its password is the given one, and no lock stands.
  pub record IsAuthenticated (req : LoginRequest) (client_ip : String) (pool : Db) (row : UserRow)
      : Type 0 where
    pub found : Users.find_by_username pool (trim req.username) ≡ some row
    pub unlocked : locked_until now pool (throttle_keys ext (trim req.username) client_ip) ≡ none
    pub active : (row.status == "active") ≡ true
    pub password : verify_login_password ext req.password row.password_hash ≡ true

  -- Whatever a login that succeeds answers, a session or a challenge, it was not locked and the
  -- password was that of the active account of the name.
  pub login-ok :
      (req : LoginRequest) (client_ip : String) (pool : Db) {outcome : LoginOutcome} {left : Db}
      → login ext step now utc_now config bytes req client_ip pool ≡ (ok outcome, left)
      → (row : UserRow) × IsAuthenticated req client_ip pool row
        × (accept_login ext step now utc_now config bytes req.remember
              (throttle_keys ext (trim req.username) client_ip)
              row
              pool
            ≡ (ok outcome, left))
  unfolding login
  login-ok req client_ip pool h =
      let keys = throttle_keys ext (trim req.username) client_ip in
      let (free, rest) = unless_locked-ok (locked_until now pool keys) _ pool h in
      let (row, there, good, accepted) =
        answered-ok req keys (Users.find_by_username pool (trim req.username)) pool rest in
      let (active, password) = is_authenticated-some req.password row good in
      (
        row,
        record { found = there; unlocked = free; active = active; password = password },
        accepted,
      )

  -- A login opens a session by the password alone only for an account without any second factor:
  -- none is required, and it has neither TOTP nor a passkey.
  pub login-signed_in :
      (req : LoginRequest) (client_ip : String) (pool : Db) {session : LoginSessionOutcome}
      {left : Db}
      → login ext step now utc_now config bytes req client_ip pool ≡ (ok (signed_in session), left)
      → (row : UserRow) × IsAuthenticated req client_ip pool row
        × (needs_factor (Mfa.summary pool row.id) ≡ false)
        × (create_login_session ext now utc_now config req.remember
              (throttle_keys ext (trim req.username) client_ip)
              bytes.tokens
              row
              pool
            ≡ (ok session, left))
  unfolding accept_login
  login-signed_in req client_ip pool h =
      let keys = throttle_keys ext (trim req.username) client_ip in
      let (row, good, accepted) = login-ok req client_ip pool h in
      let (response, mid, begun, rest) =
        and_then-done (begin_login ext step now utc_now bytes.challenge row req.remember keys)
          (or_session ext now utc_now config bytes req.remember keys row) pool accepted in
      let (no_challenge, opened) = or_session-signed_in req.remember keys row response mid rest in
      let (free, same) =
        begin_login-none row req.remember keys pool (begun ∙ ap (λ r. (ok r, mid)) no_challenge) in
      (row, good, free, rw same at opened)
