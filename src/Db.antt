-- ===== src/Db.antt =====
-- The rows of the database's tables that the repositories read and write (backend/src/repositories
-- with the columns of backend/migrations), and one record for the whole database.
-- Ids are natural numbers and times are microseconds since the epoch. Columns that nothing of the
-- model reads (updated_at, created_at of most tables) are left out.
use arc_admin.Prelude.{Bool, List, Option, String, ℕ, ◌*◌}

-- `Duration::seconds(n)` and `n * interval '1 second'`.
abbrev pub seconds : ℕ → ℕ
seconds n = n * 1000000

pub record UserRow : Type 0 where
  pub id : ℕ
  pub username : String
  pub password_hash : String
  pub display_name : String
  pub email : Option String
  pub status : String
  pub organization_id : ℕ
  pub department_id : Option ℕ
  pub token_version : ℕ
  pub last_login_at : Option ℕ
  pub deleted_at : Option ℕ

pub record RoleRow : Type 0 where
  pub id : ℕ
  pub code : String
  pub name : String
  pub category : String
  pub icon : Option String
  pub color : String
  pub description : Option String
  pub data_scope : String
  pub is_active : Bool

pub record UserRoleRow : Type 0 where
  pub user_id : ℕ
  pub role_id : ℕ

pub record PermissionRow : Type 0 where
  pub id : ℕ
  pub group_id : ℕ
  pub code : String

pub record RolePermissionRow : Type 0 where
  pub role_id : ℕ
  pub permission_id : ℕ

pub record DepartmentRow : Type 0 where
  pub id : ℕ
  pub organization_id : ℕ
  pub parent_id : Option ℕ
  pub code : String
  pub name : String
  pub status : String

pub record SessionRow : Type 0 where
  pub id : ℕ
  pub user_id : ℕ
  pub session_token_hash : String
  pub csrf_token_hash : String
  pub token_version : ℕ
  pub idle_timeout_secs : ℕ
  pub persistent : Bool
  pub created_at : ℕ
  pub last_seen_at : ℕ
  pub expires_at : ℕ
  pub revoked_at : Option ℕ

pub record StepUpRow : Type 0 where
  pub token_hash : String
  pub session_id : ℕ
  pub user_id : ℕ
  pub scope : String
  pub expires_at : ℕ
  pub consumed_at : Option ℕ

pub record ModuleUnlockRow : Type 0 where
  pub session_id : ℕ
  pub user_id : ℕ
  pub module_scope : String
  pub issued_at : ℕ
  pub expires_at : ℕ

pub record LoginAttemptRow : Type 0 where
  pub identifier_hash : String
  pub failure_count : ℕ
  pub window_started_at : ℕ
  pub locked_until : Option ℕ
  pub updated_at : ℕ

-- The keys of the login's throttle, as a challenge keeps them: `LoginContext` of services/auth.rs.
pub record LoginContext : Type 0 where
  pub account : String
  pub source_ip : String
  pub account_ip : String

-- The JSON of a challenge's state, by the types of services/mfa.rs that are written there.
pub data ChallengeState : Type 0 where
  login_state : LoginContext → ChallengeState
  enrollment_state : LoginContext → String → ChallengeState
  passkey_authentication_state : LoginContext → String → ChallengeState
  passkey_registration_state : String → String → ChallengeState

pub record ChallengeRow : Type 0 where
  pub id : ℕ
  pub token_hash : String
  pub user_id : ℕ
  pub kind : String
  pub persistent : Bool
  pub state : ChallengeState
  pub attempt_count : ℕ
  pub max_attempts : ℕ
  pub expires_at : ℕ
  pub consumed_at : Option ℕ

pub record RecoveryCodeRow : Type 0 where
  pub id : ℕ
  pub user_id : ℕ
  pub code_hash : String
  pub used_at : Option ℕ

-- `credential` is the text of the crate's passkey.
pub record PasskeyRow : Type 0 where
  pub id : ℕ
  pub user_id : ℕ
  pub name : String
  pub credential_id : String
  pub credential : String
  pub last_used_at : Option ℕ

pub record OrganizationRow : Type 0 where
  pub id : ℕ
  pub code : String
  pub status : String

pub record MfaSettingsRow : Type 0 where
  pub user_id : ℕ
  pub webauthn_user_id : String
  pub totp_secret_ciphertext : Option (List ℕ)
  pub totp_enabled_at : Option ℕ
  pub recovery_codes_issued_at : Option ℕ
  pub last_reauth_totp_counter : Option ℕ
  pub last_reauth_totp_used_at : Option ℕ

-- A field of the JSON object that an audit record carries.
pub data Detail : Type 0 where
  ids : List ℕ → Detail
  number : ℕ → Detail
  text : String → Detail
  texts : List String → Detail
  flag : Bool → Detail
  null : Detail

pub record AuditRow : Type 0 where
  pub actor_user_id : Option ℕ
  pub action : String
  pub target_type : String
  pub target_id : Option ℕ
  pub details : List (String × Detail)
  pub organization_id : Option ℕ
  pub department_id : Option ℕ

-- `next_…` is the sequence behind a BIGSERIAL key.
pub record Db : Type 0 where
  pub users : List UserRow
  pub roles : List RoleRow
  pub user_roles : List UserRoleRow
  pub permissions : List PermissionRow
  pub role_permissions : List RolePermissionRow
  pub departments : List DepartmentRow
  pub auth_sessions : List SessionRow
  pub step_up_tokens : List StepUpRow
  pub module_unlocks : List ModuleUnlockRow
  pub login_attempts : List LoginAttemptRow
  pub mfa_settings : List MfaSettingsRow
  pub mfa_challenges : List ChallengeRow
  pub recovery_codes : List RecoveryCodeRow
  pub passkeys : List PasskeyRow
  pub organizations : List OrganizationRow
  pub audit_logs : List AuditRow
  pub next_user : ℕ
  pub next_role : ℕ
  pub next_department : ℕ
  pub next_session : ℕ
  pub next_challenge : ℕ
  pub next_recovery_code : ℕ
  pub next_passkey : ℕ
