-- ===== src/Tests/Grants.antt =====
-- Examples of the step-up grants and of the unlocked modules.
use arc_admin.Prelude.{
  nat_eq, string_eq, [], arith, byte_len, count_where, delete_where, elem, err, exists,
  fetch_optional, none, ok, refl, some, trim, true, ◌∷◌, ◌≡◌,
}
use arc_admin.Error.{Api, forbidden, validation}
use arc_admin.Db.{Db}
use arc_admin.Auth.Token.{hex, random_token, token_hash}
use arc_admin.Repo.StepUp
use arc_admin.Repo.Users
use arc_admin.Repo.Mfa
use arc_admin.Repo.AuditLogs.{record_log}
use arc_admin.Mfa.{to_be_bytes, decrypt_totp_secret}
use arc_admin.Service.Reauth.{verify_reauthentication, verify_totp_code, used_code}
use arc_admin.Service.Reauth.Replay.{Matches, verify_totp_code_twice}
use arc_admin.Service.StepUp.{
  StepUpRequest, StepUpResponse, issue, store_grant, consume, used_grant, is_valid_scope,
}
use arc_admin.Service.StepUp.OneUse.{HasUniqueHashes, consume-consume}
use arc_admin.Service.StepUp.Grants.{store_grant-HasUniqueHashes}
use arc_admin.Service.StepUp.Issue.{consume-issue}
use arc_admin.Service.ModuleUnlock.{ModuleUnlockStatus, store_unlock, require, validate_module}
use arc_admin.Service.ModuleUnlock.Window.{require-store_unlock}
use arc_admin.Tests.Externals.{toy}
use arc_admin.Tests.Accounts.{accounts, account}
use arc_admin.Tests.Coding.{sample_bytes, sample-AllBytes, stored_secret}

no_hash_twice : HasUniqueHashes accounts
unfolding count_where
no_hash_twice hash = omega arith

abbrev asked : StepUpRequest
asked = record { current_password = "correct horse"; totp_code = none; scope = "users.delete" }

abbrev answer : StepUpResponse
answer = record { token = random_token sample_bytes; expires_at = 300000000 }

abbrev stored : Api (StepUpResponse × Db) → Db
stored (ok (r, db)) = db
stored (err e) = accounts

abbrev granted : Db
granted = (issue toy 30 0 0 sample_bytes 1 2 asked accounts).1

issued : issue toy 30 0 0 sample_bytes 1 2 asked accounts ≡ (ok answer, granted)
unfolding issue is_valid_scope elem verify_reauthentication Users.find_by_id fetch_optional
    Mfa.totp_enabled Mfa.required exists store_grant StepUp.create StepUp.prune delete_where
issued = refl

consume-issue_example :
    (consume toy 299999999 1 2 (some answer.token) "users.delete" granted).0 ≡ ok tt
consume-issue_example =
    consume-issue toy 30 0 0 1 2 sample_bytes asked 299999999 1 2 "users.delete" accounts
      sample-AllBytes refl issued

abbrev direct : Db
direct = stored (store_grant toy 0 0 sample_bytes 1 2 "users.delete" accounts)

direct_grant : store_grant toy 0 0 sample_bytes 1 2 "users.delete" accounts ≡ ok (answer, direct)
unfolding store_grant StepUp.create exists StepUp.prune delete_where
direct_grant = refl

first_use : (consume toy 5 1 2 (some (random_token sample_bytes)) "users.delete" direct).0 ≡ ok tt
unfolding consume store_grant byte_len random_token hex StepUp.consume count_where StepUp.create
    exists StepUp.prune delete_where record_log token_hash
first_use = refl

consume-consume_example :
    consume toy 6 1 2
      (some (random_token sample_bytes))
      "users.delete"
      (consume toy 5 1 2 (some (random_token sample_bytes)) "users.delete" direct).1
    ≡ (
      err (forbidden used_grant),
      (consume toy 5 1 2 (some (random_token sample_bytes)) "users.delete" direct).1,
    )
consume-consume_example =
    consume-consume toy 5 6 1 2 1 2 "users.delete" "users.delete" (some (random_token sample_bytes))
      direct
      (store_grant-HasUniqueHashes toy 0 0 1 2 sample_bytes "users.delete" accounts no_hash_twice
        direct_grant)
      first_use

abbrev with_factor : Db
with_factor = record accounts {
  mfa_settings =
      record {
        user_id = 1;
        totp_secret_ciphertext = some stored_secret;
        totp_enabled_at = some 0;
        webauthn_user_id = "6f1e";
        recovery_codes_issued_at = none;
        last_reauth_totp_counter = some 8;
        last_reauth_totp_used_at = none;
      }
      ∷ [];
}

-- The code is presented again in the next time step.
same_counter : Matches toy 30 5 30000006 1 "123456" "123456" with_factor 9 9
unfolding Users.find_by_id fetch_optional Mfa.totp_secret decrypt_totp_secret
    arc_admin.Mfa.encrypt_totp_secret to_be_bytes trim
same_counter = record {
  user = account 1 "root";
  sealed = stored_secret;
  secret = 42 ∷ 43 ∷ [];
  found = refl;
  stored = refl;
  opened = refl;
  first = refl;
  second = refl;
}

accepted : (verify_totp_code toy 30 5 1 "123456" with_factor).0 ≡ ok tt
unfolding verify_totp_code Users.find_by_id fetch_optional Mfa.totp_secret decrypt_totp_secret
    arc_admin.Mfa.encrypt_totp_secret to_be_bytes trim Mfa.consume_reauth_totp_counter exists
accepted = refl

verify_totp_code_twice_example :
    verify_totp_code toy 30 30000006 1 "123456" (verify_totp_code toy 30 5 1 "123456" with_factor).1
    ≡ (err (validation used_code), (verify_totp_code toy 30 5 1 "123456" with_factor).1)
verify_totp_code_twice_example =
    verify_totp_code_twice toy 30 5 30000006 1 "123456" "123456" 9 9 with_factor same_counter
      (omega arith) accepted

abbrev unlocked_at : Api (ModuleUnlockStatus × Db) → Db
unlocked_at (ok (r, db)) = db
unlocked_at (err e) = accounts

abbrev unlocked : Db
unlocked = unlocked_at (store_unlock 0 0 1 2 "users" accounts)

abbrev status : ModuleUnlockStatus
status = record { module_name = "users"; unlocked = true; expires_at = some 300000000 }

stored_unlock : store_unlock 0 0 1 2 "users" accounts ≡ ok (status, unlocked)
unfolding store_unlock
stored_unlock = refl

users_module : validate_module "users" ≡ ok tt
unfolding validate_module elem
users_module = refl

require-store_unlock_example : require 299999999 unlocked 1 2 "users" ≡ ok tt
require-store_unlock_example =
    require-store_unlock 0 0 299999999 1 2 1 2 "users" "users" accounts (omega arith) users_module
      stored_unlock
