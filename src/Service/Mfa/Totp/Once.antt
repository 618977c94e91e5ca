-- ===== src/Service/Mfa/Totp/Once.antt =====
-- A login by TOTP (`verify_totp_login` of backend/src/services/mfa.rs) uses its challenge up.
use arc_admin.Prelude.{
  nat_eq, string_eq, >>=-eq-ok, Bool-cases, List, Result, String, ap, err, fetch_optional, inl, inr,
  is_none, ltb, map_err, none, ok, ok_injective, ok_or-eq-ok, some, sym, true, ℕ, ◌&&◌, ◌==◌, ◌∙◌,
  ◌≡◌,
}
use arc_admin.External.{External}
use arc_admin.Error.{Api, internal}
use arc_admin.Db.{Db, ChallengeRow, UserRow}
use arc_admin.Action.{transaction, and_then-done, transaction-done}
use arc_admin.Mfa.{decrypt_totp_secret}
use arc_admin.Auth.Token.{token_hash}
use arc_admin.Repo.Users
use arc_admin.Repo.Mfa
use arc_admin.Repo.Mfa.Challenges
use arc_admin.Repo.Mfa.Challenges.{challenge_for_update, consume_challenge}
use arc_admin.Repo.Mfa.Challenges.OneUse.{HasUniqueHashes, consume_challenge-none}
use arc_admin.Repo.AuditLogs.{record_log}
use arc_admin.Service.Auth.{AuthSessionConfig, LoginSessionOutcome}
use arc_admin.Service.Auth.LoginSession.{TokenBytes}
use arc_admin.Service.Auth.Sole.{store_session-challenges, create_login_session-done}
use arc_admin.Service.Mfa.{settle, read_login, Passed, finish_login}
use arc_admin.Service.Mfa.Settled.{settle-done, refuse-err}
use arc_admin.Service.Mfa.Totp.{is_valid_code, pass_totp, check_totp, verify_totp_login}

pass_totp-challenges :
    (now : ℕ) (db : Db) (passed : Passed) {result : Passed} {left : Db}
    → pass_totp now db passed ≡ (ok result, left)
    → left.mfa_challenges ≡ (consume_challenge now db passed.challenge.id).mfa_challenges
unfolding pass_totp record_log
pass_totp-challenges now db passed h = ap (λ (r : Api Passed × Db). r.1.mfa_challenges) (sym h)

-- The secret that the account of a challenge has enabled, and a code that fits it.
pub record HasValidCode (ext : External) (step now : ℕ) (code : String) (db : Db)
    (challenge : ChallengeRow) : Type 0 where
  pub encrypted : List ℕ
  pub secret : List ℕ
  pub user : UserRow
  pub enabled : Mfa.totp_secret db challenge.user_id ≡ some encrypted
  pub decrypted : decrypt_totp_secret ext challenge.user_id encrypted ≡ ok secret
  pub found : Users.find_by_id db challenge.user_id ≡ some user
  pub valid : is_valid_code ext step now user.username secret code ≡ ok true

map_err-ok : {A : Type 0} (r : Result String A) {a : A} → map_err internal r ≡ ok a → r ≡ ok a
map_err-ok (ok b) h = ap (λ x. ok x) (ok_injective h)
map_err-ok (err e) h = cc

check_totp-passed :
    (ext : External) (step now : ℕ) (hash code : String) (db : Db) {passed : Passed} {left : Db}
    → check_totp ext step now hash code db ≡ ok (ok passed, left)
    → (challenge : ChallengeRow) × (challenge_for_update now db hash "login" ≡ some challenge)
      × HasValidCode ext step now code db challenge
      × (left.mfa_challenges ≡ (consume_challenge now db challenge.id).mfa_challenges)
unfolding check_totp
check_totp-passed ext step now hash code db h =
    let (challenge, there, rest1) = ok_or-eq-ok (challenge_for_update now db hash "login") _ _ h in
    let (login, _, rest2) = >>=-eq-ok (read_login challenge.state) _ rest1 in
    let (encrypted, enabled, rest3) =
      ok_or-eq-ok (Mfa.totp_secret db challenge.user_id) _ _ rest2 in
    let (secret, opened, rest4) =
      >>=-eq-ok (map_err internal (decrypt_totp_secret ext challenge.user_id encrypted)) _ rest3 in
    let (user, found, rest5) = ok_or-eq-ok (Users.find_by_id db challenge.user_id) _ _ rest4 in
    let (valid, checked, rest6) =
      >>=-eq-ok (is_valid_code ext step now user.username secret code) _ rest5 in
    let passed : Passed = record { challenge = challenge; login = login; user = user } in
    elim (Bool-cases valid) [
      | inr wrong ↦ absurd (refuse-err now db challenge "totp" (ok_injective (rw wrong at rest6)))
      | inl right ↦ (
        challenge,
        there,
        record {
          encrypted = encrypted;
          secret = secret;
          user = user;
          enabled = enabled;
          decrypted = map_err-ok (decrypt_totp_secret ext challenge.user_id encrypted) opened;
          found = found;
          valid = checked ∙ ap (λ b. ok b) right;
        },
        pass_totp-challenges now db passed (ok_injective (rw right at rest6)),
      )
    ]

challenges-same :
    (a b : Db) (now : ℕ) (hash kind : String)
    → a.mfa_challenges ≡ b.mfa_challenges
    → challenge_for_update now a hash kind ≡ challenge_for_update now b hash kind
unfolding challenge_for_update Challenges.is_live_challenge
challenges-same a b now hash kind e =
    ap
      (fetch_optional (λ (c : ChallengeRow).
        c.token_hash == hash && (is_none c.consumed_at && ltb now c.expires_at) && c.kind == kind))
      e

-- A login by TOTP that succeeds had an open login challenge and a code that fits the secret of the
-- challenge's account, and the challenge's token is refused afterwards, at any time and as any kind.
pub verify_totp_login-once :
    (ext : External) (step now utc_now : ℕ) (config : AuthSessionConfig) (bytes : TokenBytes)
    (challenge_token code : String) (pool : Db) {outcome : LoginSessionOutcome} {left : Db}
    (later : ℕ) (kind : String)
    → HasUniqueHashes pool
    → verify_totp_login ext step now utc_now config bytes challenge_token code pool
      ≡ (ok outcome, left)
    → (challenge : ChallengeRow) × (challenge_for_update now pool
          (token_hash ext challenge_token)
          "login"
        ≡ some challenge)
      × HasValidCode ext step now code pool challenge
      × (challenge_for_update later left (token_hash ext challenge_token) kind ≡ none)
unfolding verify_totp_login
verify_totp_login-once ext step now utc_now config bytes challenge_token code pool later kind unique
      h =
    let hash = token_hash ext challenge_token in
    let (passed, mid, settled, last) =
      and_then-done (settle (transaction (check_totp ext step now hash code)))
        (finish_login ext now utc_now config bytes) pool h in
    let (challenge, there, valid, rows) = check_totp-passed ext step now hash code pool (
      transaction-done (check_totp ext step now hash code) pool
        (settle-done (transaction (check_totp ext step now hash code)) pool settled)) in
    let signed =
      store_session-challenges ext now utc_now config passed.challenge.persistent passed.login bytes
        passed.user mid in
    let (_, ends, _) =
      create_login_session-done ext now utc_now config passed.challenge.persistent passed.login
        bytes passed.user mid last in
    let stored = ap Db.mfa_challenges ends in
    let gone = consume_challenge-none now later hash "login" kind pool unique there in
    (
      challenge,
      there,
      valid,
      challenges-same _ (consume_challenge now pool challenge.id) later hash kind
            (stored ∙ signed ∙ rows)
          ∙ gone,
    )
