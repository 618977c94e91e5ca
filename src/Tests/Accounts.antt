-- ===== src/Tests/Accounts.antt =====
-- Three accounts: the super administrators 1 and 3, and the editor 2, who has a session. User 1 has a
-- second factor.
use arc_admin.Prelude.{nat_eq, string_eq, String, [], err, false, none, ok, true, ℕ, ◌∷◌}
use arc_admin.Access.{ActorContext, all}
use arc_admin.Error.{Api}
use arc_admin.Db.{Db, UserRow, RoleRow}

abbrev pub account : ℕ → String → UserRow
account id username = record {
  id = id;
  username = username;
  password_hash = "correct horse";
  display_name = username;
  email = none;
  status = "active";
  organization_id = 1;
  department_id = none;
  token_version = 0;
  last_login_at = none;
  deleted_at = none;
}

abbrev role : ℕ → String → RoleRow
role id code = record {
  id = id;
  code = code;
  name = code;
  category = "system";
  icon = none;
  color = "neutral";
  description = none;
  data_scope = "all";
  is_active = true;
}

abbrev pub accounts : Db
accounts = record {
  users = account 1 "root" ∷ account 2 "editor" ∷ account 3 "deputy" ∷ [];
  roles = role 1 "super_admin" ∷ role 2 "editor" ∷ [];
  user_roles =
      record { user_id = 1; role_id = 1 }
      ∷ record { user_id = 2; role_id = 2 }
      ∷ record { user_id = 3; role_id = 1 }
      ∷ [];
  permissions =
      record { id = 1; group_id = 1; code = "users.read" }
      ∷ record { id = 2; group_id = 1; code = "users.write" }
      ∷ [];
  role_permissions =
      record { role_id = 1; permission_id = 1 }
      ∷ record { role_id = 1; permission_id = 2 }
      ∷ record { role_id = 2; permission_id = 1 }
      ∷ [];
  departments = [];
  auth_sessions =
      record {
        id = 1;
        user_id = 2;
        session_token_hash = "aa";
        csrf_token_hash = "bb";
        token_version = 0;
        idle_timeout_secs = 1800;
        persistent = false;
        created_at = 0;
        last_seen_at = 0;
        expires_at = 9000000000;
        revoked_at = none;
      }
      ∷ [];
  step_up_tokens = [];
  module_unlocks = [];
  login_attempts = [];
  mfa_settings = [];
  mfa_challenges = [];
  recovery_codes = [];
  passkeys = [];
  organizations = record { id = 1; code = "default"; status = "active" } ∷ [];
  audit_logs = [];
  next_user = 4;
  next_role = 3;
  next_department = 1;
  next_session = 2;
  next_challenge = 1;
  next_recovery_code = 1;
  next_passkey = 1;
}

abbrev pub root : ActorContext
root = record {
  user_id = 1;
  session_id = 5;
  organization_id = 1;
  department_id = none;
  data_scope = all;
  permission_codes = "users.read" ∷ "users.write" ∷ [];
}

-- The database of a result.
abbrev pub left : Api Db → Db
left (ok db) = db
left (err e) = accounts
