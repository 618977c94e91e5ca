-- ===== src/Tests/Requests.antt =====
-- Examples of requests that are authenticated.
use arc_admin.Prelude.{
  nat_eq, string_eq, String, [], byte_len, char_count, count_where, distinct, elem, exists, false,
  fetch_optional, none, ok, refl, select, some, true, update_where, ℕ, ◌&&◌, ◌==◌, ◌∷◌, ◌≡◌, ◌≢◌,
}
use arc_admin.Db.{Db, SessionRow}
use arc_admin.Access.{ActorContext, all}
use arc_admin.Auth.Http.{Request, Method, header, cookie}
use arc_admin.Auth.Csrf.{full_length, csrf_cookie_name}
use arc_admin.Auth.Token.{token_hash, hex}
use arc_admin.Auth.Authenticate.{authenticate}
use arc_admin.Auth.Authenticate.Permitted.{authenticate-permissions, authenticate-csrf}
use arc_admin.Repo.Permissions.{permission_codes_by_user}
use arc_admin.Service.Auth.Account.{logout, change_password, ChangePasswordRequest}
use arc_admin.Service.Auth.SignedOut.{logout-signed_out, change_password-signed_out}
use arc_admin.Tests.Externals.{toy}
use arc_admin.Tests.Accounts.{accounts}

abbrev pub session_token : String
session_token = "0123456789abcdef0123456789abcdef0123456789abcdef0123456789abcdef"

abbrev pub session_row : ℕ → ℕ → SessionRow
session_row id user_id = record {
  id = id;
  user_id = user_id;
  session_token_hash = "4007";
  csrf_token_hash = "4007";
  token_version = 0;
  idle_timeout_secs = 1800;
  persistent = false;
  created_at = 0;
  last_seen_at = 0;
  expires_at = 9000000000;
  revoked_at = none;
}

-- The editor has a session.
abbrev signed : Db
signed = record accounts { auth_sessions = session_row 1 2 ∷ [] }

abbrev changing : Request
changing = record {
  method = Method.post;
  headers = ("x-csrf-token", some session_token) ∷ [];
  cookies = ("arc_session", session_token) ∷ ("arc_csrf", session_token) ∷ [];
}

abbrev editor : ActorContext
editor = record {
  user_id = 2;
  session_id = 1;
  organization_id = 1;
  department_id = none;
  data_scope = all;
  permission_codes = "users.read" ∷ [];
}

accepted : (authenticate toy false 1000000 changing signed).0 ≡ ok editor
unfolding authenticate byte_len fetch_optional hex exists distinct select elem
accepted = refl

authenticate-permissions_example : editor.permission_codes ≡ permission_codes_by_user signed 2
authenticate-permissions_example =
    authenticate-permissions toy false 1000000 changing signed accepted

authenticate-csrf_example :
    (token : String) × (full_length (header changing.headers "x-csrf-token") ≡ some token)
    × (full_length (cookie changing.cookies (csrf_cookie_name false)) ≡ some token)
    × (exists
          (λ (s : SessionRow). s.id == 1 && s.csrf_token_hash == token_hash toy token)
          signed.auth_sessions
        ≡ true)
authenticate-csrf_example = authenticate-csrf toy false 1000000 changing signed refl accepted

-- Another session of the same user, with the same hash of this toy, after the first has logged out.
abbrev left_by_logout : Db
left_by_logout =
    logout 5 2 1 (record accounts { auth_sessions = session_row 1 2 ∷ session_row 2 2 ∷ [] })

second : ActorContext
second = record editor { session_id = 2 }

accepted_second : (authenticate toy false 1000000 changing left_by_logout).0 ≡ ok second
unfolding authenticate byte_len fetch_optional logout arc_admin.Repo.AuditLogs.record_log
    arc_admin.Service.Passwords.record_session_revocation arc_admin.Repo.Sessions.revoke count_where
    update_where hex exists second distinct select elem
accepted_second = refl

logout-signed_out_example : second.session_id ≢ 1
unfolding second
logout-signed_out_example =
    logout-signed_out toy 5 2 1
      (record accounts { auth_sessions = session_row 1 2 ∷ session_row 2 2 ∷ [] }) false 1000000
      changing accepted_second refl

-- The editor changes the password; the session of the deputy still authenticates.
abbrev both : Db
both = record accounts {
  auth_sessions = session_row 1 2 ∷ session_row 2 3 ∷ [];
  mfa_settings =
      record {
        user_id = 3;
        webauthn_user_id = "77aa";
        totp_secret_ciphertext = some [];
        totp_enabled_at = some 0;
        recovery_codes_issued_at = none;
        last_reauth_totp_counter = none;
        last_reauth_totp_used_at = none;
      }
      ∷ [];
}

abbrev new_password : ChangePasswordRequest
new_password = record { current_password = "correct horse"; new_password = "battery staple 1" }

abbrev changed : Db
changed = (change_password toy 5 [] 2 new_password both).1

password_changed : change_password toy 5 [] 2 new_password both ≡ (ok tt, changed)
unfolding change_password arc_admin.Service.Passwords.validate_password char_count
    arc_admin.Service.Reauth.verify_current_password arc_admin.Repo.Users.find_by_id fetch_optional
    arc_admin.Service.Passwords.hash_password arc_admin.Repo.Users.update_password
password_changed = refl

abbrev deputy : ActorContext
deputy = record editor {
  user_id = 3;
  session_id = 2;
  permission_codes = "users.read" ∷ "users.write" ∷ [];
}

accepted_deputy : (authenticate toy false 1000000 changing changed).0 ≡ ok deputy
unfolding authenticate byte_len fetch_optional change_password
    arc_admin.Service.Passwords.validate_password char_count
    arc_admin.Service.Reauth.verify_current_password arc_admin.Repo.Users.find_by_id
    arc_admin.Service.Passwords.hash_password arc_admin.Repo.Users.update_password
    arc_admin.Repo.AuditLogs.record_log arc_admin.Service.Passwords.record_session_revocation
    arc_admin.Repo.Sessions.revoke_all_for_user count_where update_where hex exists distinct elem
    select
accepted_deputy = refl

change_password-signed_out_example : deputy.user_id ≢ 2
change_password-signed_out_example =
    change_password-signed_out toy 5 [] 2 new_password both false 1000000 changing password_changed
      accepted_deputy
