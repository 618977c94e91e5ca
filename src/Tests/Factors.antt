-- ===== src/Tests/Factors.antt =====
-- Examples of the second factor: the super administrator 1 has TOTP, two recovery codes and an open
-- challenge.
use arc_admin.Prelude.{
  nat_eq, string_eq, String, [], all, arith, byte_len, count_where, delete_where, exists, false,
  fetch_optional, flat_map, nat_beq_iff, none, ok, order_by_id, refl, select, some,
  to_ascii_uppercase, trim, true, update_where, ℕ, ◌&&◌, ◌+◌, ◌==◌, ◌∷◌, ◌≡◌, ◌≤◌,
}
use arc_admin.Db.{SessionRow, Db, ChallengeRow, RecoveryCodeRow, LoginContext, login_state}
use arc_admin.Auth.Token.{token_hash, hex}
use arc_admin.Repo.Sessions.{is_open}
use arc_admin.Repo.Mfa.Challenges.{
  challenge_for_update, create_challenge, consume_challenge, record_challenge_failure,
}
use arc_admin.Repo.Mfa.Challenges.Attempts.{
  ChallengeSteps, rests, steps, fails, consumes, HaveAttempts, ChallengeSteps-attempts,
}
use arc_admin.Repo.Mfa.Challenges.OneUse.{HasUniqueHashes, fail_times, fail_times-none}
use arc_admin.Repo.Mfa.Challenges.Machine.{life, rank, HasUniqueIds}
use arc_admin.Repo.Mfa.Challenges.Runs.{replay, ChallengeSteps-life}
use arc_admin.Service.Auth.{LoginSessionOutcome}
use arc_admin.Service.Auth.LoginSession.{TokenBytes, outcome}
use arc_admin.Service.Mfa.Totp.{verify_totp_login}
use arc_admin.Service.Mfa.Totp.Once.{HasValidCode, verify_totp_login-once}
use arc_admin.Service.Mfa.Recovery.{verify_recovery_login}
use arc_admin.Service.Mfa.Recovery.Spent.{unused, verify_recovery_login-spent}
use arc_admin.Tests.Externals.{toy}
use arc_admin.Tests.Accounts.{accounts, account}
use arc_admin.Tests.Coding.{sample_bytes, stored_secret}
use arc_admin.Tests.Logins.{config}

-- The hash that the toy functions give every token of four bytes.
abbrev hash : String
hash = "0407"

abbrev keys : LoginContext
keys = record { account = "aa"; source_ip = "bb"; account_ip = "cc" }

abbrev open_challenge : ChallengeRow
open_challenge = record {
  id = 7;
  token_hash = hash;
  user_id = 1;
  kind = "login";
  persistent = false;
  state = login_state keys;
  attempt_count = 0;
  max_attempts = 5;
  expires_at = 300000000;
  consumed_at = none;
}

abbrev code : ℕ → String → RecoveryCodeRow
code id text = record { id = id; user_id = 1; code_hash = text; used_at = none }

abbrev pub challenged : Db
challenged = record accounts {
  mfa_challenges = open_challenge ∷ [];
  next_challenge = 8;
  recovery_codes = code 1 "ABCD" ∷ code 2 "EFGH" ∷ [];
  mfa_settings =
      record {
        user_id = 1;
        webauthn_user_id = "6f1e";
        totp_secret_ciphertext = some stored_secret;
        totp_enabled_at = some 0;
        recovery_codes_issued_at = none;
        last_reauth_totp_counter = some 8;
        last_reauth_totp_used_at = none;
      }
      ∷ [];
}

hashes_once : HasUniqueHashes challenged
unfolding count_where
hashes_once other = ground arith

attempts : HaveAttempts challenged
unfolding all
attempts = refl

found : challenge_for_update 5 challenged hash "login" ≡ some open_challenge
unfolding challenge_for_update fetch_optional
found = refl

fail_times-none_example :
    challenge_for_update 9 (fail_times (5 ∷ 5 ∷ 6 ∷ 7 ∷ 8 ∷ []) challenged 7) hash "login" ≡ none
fail_times-none_example =
    fail_times-none 5 9 (5 ∷ 5 ∷ 6 ∷ 7 ∷ 8 ∷ []) hash "login" "login" challenged hashes_once found
      (omega arith) (omega arith)

abbrev after_failure : Db
after_failure = (record_challenge_failure 5 challenged 7).1

abbrev at_the_end : Db
at_the_end = consume_challenge 6 after_failure 7

failed_then_passed : ChallengeSteps challenged at_the_end
failed_then_passed =
    steps (fails 5 challenged 7) (steps (consumes 6 after_failure 7) (rests at_the_end))

ChallengeSteps-attempts_example : HaveAttempts at_the_end
ChallengeSteps-attempts_example = ChallengeSteps-attempts failed_then_passed attempts

ids_once : HasUniqueIds challenged
unfolding count_where
ids_once id = ground (arith, nat_beq_iff 7 id)

-- One failure and then the right code: the challenge is closed.
ChallengeSteps-life_example :
    (life at_the_end 7 ≡ replay 7 failed_then_passed (life challenged 7))
    × (rank (life at_the_end 7) ≤ rank (life challenged 7))
ChallengeSteps-life_example = ChallengeSteps-life 7 ids_once (omega arith) failed_then_passed

abbrev tokens : TokenBytes
tokens = record { session = sample_bytes; csrf = sample_bytes }

abbrev signed_root : LoginSessionOutcome
signed_root = outcome 0 config false tokens (account 1 "root") challenged

abbrev by_totp : Db
by_totp = (verify_totp_login toy 30 5 0 config tokens "abcd" "123456" challenged).1

passed_totp :
    verify_totp_login toy 30 5 0 config tokens "abcd" "123456" challenged
    ≡ (ok signed_root, by_totp)
unfolding verify_totp_login challenge_for_update fetch_optional hex byte_len trim
    arc_admin.Repo.Users.find_by_id arc_admin.Service.Auth.LoginSession.create_login_session
    arc_admin.Repo.AuditLogs.record_log arc_admin.Repo.Sessions.prune
    arc_admin.Service.Passwords.record_session_revocation delete_where
    arc_admin.Repo.Sessions.enforce_user_limit count_where select order_by_id flat_map update_where
    arc_admin.Repo.Users.role_names_by_user arc_admin.Repo.Users.role_ids_by_user
    arc_admin.Repo.Mfa.totp_secret arc_admin.Mfa.decrypt_totp_secret
    arc_admin.Mfa.encrypt_totp_secret arc_admin.Mfa.to_be_bytes arc_admin.Repo.Sessions.create
    arc_admin.Repo.Sessions.clear_login_failures arc_admin.Repo.Users.update_last_login
    consume_challenge exists
passed_totp = refl

verify_totp_login-once_example :
    (challenge : ChallengeRow) × (challenge_for_update 5 challenged (token_hash toy "abcd") "login"
      ≡ some challenge)
    × HasValidCode toy 30 5 "123456" challenged challenge
    × (challenge_for_update 6 by_totp (token_hash toy "abcd") "login" ≡ none)
verify_totp_login-once_example =
    verify_totp_login-once toy 30 5 0 config tokens "abcd" "123456" challenged 6 "login" hashes_once
      passed_totp

abbrev by_recovery : Db
by_recovery = (verify_recovery_login toy 5 0 config tokens "abcd" " efgh " challenged).1

passed_recovery :
    verify_recovery_login toy 5 0 config tokens "abcd" " efgh " challenged
    ≡ (ok signed_root, by_recovery)
unfolding verify_recovery_login challenge_for_update fetch_optional hex byte_len trim
    arc_admin.Repo.Users.find_by_id arc_admin.Service.Auth.LoginSession.create_login_session
    arc_admin.Repo.AuditLogs.record_log arc_admin.Repo.Sessions.prune
    arc_admin.Service.Passwords.record_session_revocation delete_where
    arc_admin.Repo.Sessions.enforce_user_limit count_where select order_by_id flat_map update_where
    arc_admin.Repo.Users.role_names_by_user arc_admin.Repo.Users.role_ids_by_user
    arc_admin.Repo.Mfa.Challenges.challenge arc_admin.Repo.Mfa.RecoveryCodes.recovery_codes exists
    arc_admin.Service.Mfa.Codes.matching_recovery_code
    arc_admin.Repo.Mfa.RecoveryCodes.consume_recovery_code to_ascii_uppercase
    arc_admin.Repo.Sessions.revoke_all_for_user arc_admin.Repo.Sessions.create
    arc_admin.Repo.Sessions.clear_login_failures arc_admin.Repo.Users.update_last_login
    consume_challenge
passed_recovery = refl

verify_recovery_login-spent_example :
    (challenge : ChallengeRow) × (challenge_for_update 5 challenged (token_hash toy "abcd") "login"
      ≡ some challenge)
    × (unused challenge.user_id by_recovery + 1 ≤ unused challenge.user_id challenged)
    × (count_where (is_open challenge.user_id) by_recovery.auth_sessions ≡ 1)
    × (exists
          (λ (s : SessionRow).
            is_open challenge.user_id s
            && s.session_token_hash == token_hash toy signed_root.session_token)
          by_recovery.auth_sessions
        ≡ true)
    × (exists
          (λ (s : SessionRow). s.session_token_hash == token_hash toy signed_root.session_token)
          challenged.auth_sessions
        ≡ false)
verify_recovery_login-spent_example =
    verify_recovery_login-spent toy 5 0 config tokens "abcd" " efgh " challenged (omega arith)
      (omega arith) passed_recovery
