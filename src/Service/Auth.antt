-- ===== src/Service/Auth.antt =====
-- backend/src/services/auth.rs: the settings of the sessions (`AuthSessionConfig` of
-- backend/src/auth.rs, without its networks), the keys of the login's throttle, and the answers.
pub mod Throttle
pub mod LoginSession
pub mod Account
pub mod Bootstrap
pub mod SignedOut
pub mod Opened
pub mod Sole
use arc_admin.Prelude.{nat_eq, string_eq, Bool, List, Option, String, concat, to_ascii_lowercase, ℕ}
use arc_admin.External.{External}
use arc_admin.Db.{Db, UserRow, LoginContext}
use arc_admin.Auth.Token.{token_hash}
use arc_admin.Repo.Users

pub record AuthSessionConfig : Type 0 where
  pub session_ttl_secs : ℕ
  pub session_idle_timeout_secs : ℕ
  pub persistent_session_ttl_secs : ℕ
  pub persistent_session_idle_timeout_secs : ℕ
  pub max_sessions_per_user : ℕ
  pub login_max_failures : ℕ
  pub login_ip_max_failures : ℕ
  pub login_account_ip_max_failures : ℕ
  pub login_failure_window_secs : ℕ
  pub login_lockout_secs : ℕ
  pub secure_cookies : Bool

-- `LoginThrottleKeys`, which a challenge keeps as its `LoginContext`.
abbrev pub LoginThrottleKeys : Type 0
LoginThrottleKeys = LoginContext

-- `LoginThrottleKeys::new`; `client_ip` is the address as it is printed.
unfoldable pub throttle_keys : External → String → String → LoginThrottleKeys
unfolding token_hash
throttle_keys ext given_name client_ip =
    let username = to_ascii_lowercase given_name in
    record {
      account = token_hash ext (concat "account:" username);
      source_ip = token_hash ext (concat "source_ip:" client_ip);
      account_ip = token_hash ext (concat "account_ip:" (concat username (concat ":" client_ip)));
    }

-- `created_at` is a column that is left out.
pub record UserResponse : Type 0 where
  pub id : ℕ
  pub username : String
  pub display_name : String
  pub email : Option String
  pub status : String
  pub department_id : Option ℕ
  pub roles : List String
  pub last_login_at : Option ℕ

unfoldable pub user_response : UserRow → List String → UserResponse
user_response row roles = record {
  id = row.id;
  username = row.username;
  display_name = row.display_name;
  email = row.email;
  status = row.status;
  department_id = row.department_id;
  roles = roles;
  last_login_at = row.last_login_at;
}

pub data LoginStatus : Type 0 where
  authenticated mfa_required mfa_enrollment_required : LoginStatus

pub data MfaMethod : Type 0 where
  totp passkey recovery_code : MfaMethod

pub record LoginResponse : Type 0 where
  pub status : LoginStatus
  pub expires_at : Option ℕ
  pub user : Option UserResponse
  pub challenge_token : Option String
  pub methods : List MfaMethod
  pub totp_secret : Option String
  pub totp_uri : Option String
  pub totp_qr_code : Option String
  pub recovery_codes : List String

pub record LoginSessionOutcome : Type 0 where
  pub response : LoginResponse
  pub session_token : String
  pub csrf_token : String
  pub persistent : Bool
  pub ttl_secs : ℕ
