-- ===== src/Repo/Sessions/Context.antt =====
-- `auth_context` of backend/src/repositories/auth_sessions.rs: what a session's hash stands for. The
-- codes are read as a set, so their ORDER BY is left out.
use arc_admin.Prelude.{
  nat_eq, string_eq, Bool, List, Option, String, exists, fetch_optional, if◌then◌else◌, is_none,
  is_some, ltb, none, not, some, update_where, ℕ, ◌&&◌, ◌+◌, ◌==◌, ◌||◌,
}
use arc_admin.Db.{Db, SessionRow, UserRow, RoleRow, UserRoleRow, MfaSettingsRow, seconds}
use arc_admin.Repo.Users.{is_active}
use arc_admin.Repo.Mfa.{required}
use arc_admin.Repo.Permissions.{codes_of_roles}

pub record SessionAuthContext : Type 0 where
  pub session_id : ℕ
  pub user_id : ℕ
  pub csrf_token_hash : String
  pub organization_id : ℕ
  pub department_id : Option ℕ
  pub data_scope : String
  pub permission_codes : List String

-- The role is active, and the user has it.
unfoldable pub holds : Db → ℕ → RoleRow → Bool
holds db user_id r =
    r.is_active
    && exists (λ (ur : UserRoleRow). ur.user_id == user_id && ur.role_id == r.id) db.user_roles

unfoldable pub any_role : Db → ℕ → (RoleRow → Bool) → Bool
unfolding holds
any_role db user_id test = exists (λ r. holds db user_id r && test r) db.roles

-- CASE … END AS data_scope: the widest scope of the user's active roles.
unfoldable pub widest_scope : Db → ℕ → String
unfolding any_role
widest_scope db user_id =
    if any_role db user_id (λ r. r.code == "super_admin" || r.data_scope == "all")
    then "all"
    else if any_role db user_id (λ r. r.data_scope == "organization")
    then "organization"
    else if any_role db user_id (λ r. r.data_scope == "department_and_children")
    then "department_and_children"
    else if any_role db user_id (λ r. r.data_scope == "department")
    then "department"
    else "self"

unfoldable pub session_codes : Db → ℕ → List String
unfolding holds codes_of_roles
session_codes db user_id =
    codes_of_roles db (λ id. exists (λ r. r.id == id && holds db user_id r) db.roles)

-- A super administrator needs the second factor.
unfoldable pub mfa_satisfied : Db → ℕ → Bool
unfolding required
mfa_satisfied db user_id =
    not (required db user_id)
    || exists (λ (m : MfaSettingsRow). m.user_id == user_id && is_some m.totp_enabled_at)
        db.mfa_settings

-- `s.expires_at > now() AND s.last_seen_at + s.idle_timeout_secs * interval '1 second' > now()`
unfoldable pub is_current : ℕ → SessionRow → Bool
is_current now s =
    is_none s.revoked_at
    && (ltb now s.expires_at && ltb now (s.last_seen_at + seconds s.idle_timeout_secs))

-- users u ON u.id = s.user_id, with the conditions on u.
unfoldable pub is_owner : SessionRow → UserRow → Bool
unfolding is_active
is_owner s u = u.id == s.user_id && (s.token_version == u.token_version && is_active u)

unfoldable pub admits : ℕ → Db → String → SessionRow → Bool
unfolding is_current is_owner mfa_satisfied
admits now db session_token_hash s =
    s.session_token_hash == session_token_hash
    && (is_current now s && (exists (is_owner s) db.users && mfa_satisfied db s.user_id))

unfoldable pub context_with : Db → SessionRow → Option UserRow → Option SessionAuthContext
unfolding widest_scope session_codes
context_with db s none = none
context_with db s (some u) = some (record {
  session_id = s.id;
  user_id = s.user_id;
  csrf_token_hash = s.csrf_token_hash;
  organization_id = u.organization_id;
  department_id = u.department_id;
  data_scope = widest_scope db s.user_id;
  permission_codes = session_codes db s.user_id;
})

-- The row of the query, if there is one.
unfoldable pub context_of : Db → Option SessionRow → Option SessionAuthContext
unfolding context_with is_owner
context_of db none = none
context_of db (some s) = context_with db s (fetch_optional (is_owner s) db.users)

-- `last_seen_at` follows after a minute.
unfoldable pub touch : ℕ → Db → Option SessionAuthContext → Db
touch now db none = db
touch now db (some context) = record db {
  auth_sessions =
      update_where
        (λ (s : SessionRow). s.id == context.session_id && ltb (s.last_seen_at + seconds 60) now)
        (λ s. record s { last_seen_at = now }) db.auth_sessions;
}

unfoldable pub auth_context : ℕ → Db → String → Option SessionAuthContext × Db
unfolding admits context_of touch
auth_context now db session_token_hash =
    let context =
      context_of db (fetch_optional (admits now db session_token_hash) db.auth_sessions) in
    (context, touch now db context)
