-- ===== src/Tests/Handlers.antt =====
-- Examples of requests that go through the handlers.
use arc_admin.Prelude.{
  nat_eq, string_eq, String, [], byte_len, char_count, concat, count_where, delete_where, distinct,
  elem, exists, false, fetch_optional, flat_map, insert_sorted, is_some_of, none, ok, order_by_id,
  refl, select, some, true, update_where, ℕ, ◌∷◌, ◌≡◌, ◌≢◌,
}
use arc_admin.Db.{Db}
use arc_admin.Auth.Http.{Request, Method, header}
use arc_admin.Auth.Authenticate.{authenticate}
use arc_admin.Service.StepUp.{presented}
use arc_admin.Service.StepUp.OneUse.{opened}
use arc_admin.Service.Auth.Account.{ChangePasswordRequest}
use arc_admin.Handler.Account.{change_password}
use arc_admin.Handler.SignedOut.{change_own_password-signed_out}
use arc_admin.Access.{ActorContext}
use arc_admin.Handler.{Call, status_no_content, step_up_header}
use arc_admin.Handler.Users
use arc_admin.Handler.Users.{grant_super_admin}
use arc_admin.Handler.Authorized.{IsAuthorized}
use arc_admin.Handler.Removal.{delete_user-IsAuthorized}
use arc_admin.Handler.Granted.{assign_user_roles-IsAuthorized}
use arc_admin.Repo.Permissions.{permission_codes_by_user}
use arc_admin.Repo.Users.Grants.{has_grant}
use arc_admin.Service.Users.Checks.{super_admin_role}
use arc_admin.Service.Users.Removal.{IsGone}
use arc_admin.Tests.Externals.{toy}
use arc_admin.Tests.Accounts.{accounts}
use arc_admin.Tests.Requests.{session_token, session_row}

-- The root has a session, a second factor, the permissions of the two handlers and a grant for each.
abbrev managed : String → Db
managed scope = record accounts {
  permissions =
      record { id = 1; group_id = 1; code = "user:admin:deactivate" }
      ∷ record { id = 2; group_id = 1; code = "user:roles:write" }
      ∷ [];
  auth_sessions = session_row 5 1 ∷ [];
  mfa_settings =
      record {
        user_id = 1;
        webauthn_user_id = "77aa";
        totp_secret_ciphertext = some [];
        totp_enabled_at = some 0;
        recovery_codes_issued_at = none;
        last_reauth_totp_counter = none;
        last_reauth_totp_used_at = none;
      }
      ∷ [];
  step_up_tokens =
      record {
        token_hash = "4007";
        session_id = 5;
        user_id = 1;
        scope = scope;
        expires_at = 300000000;
        consumed_at = none;
      }
      ∷ [];
}

abbrev call : Call
call = record {
  ext = toy;
  secure = false;
  now = 1000000;
  salt = [];
  request = record {
    method = Method.post;
    headers = ("x-csrf-token", some session_token) ∷ ("x-step-up-token", some session_token) ∷ [];
    cookies = ("arc_session", session_token) ∷ ("arc_csrf", session_token) ∷ [];
  };
}

abbrev after_delete : Db
after_delete = (Users.delete call 3 (managed "users.delete")).1

deputy_deleted : Users.delete call 3 (managed "users.delete") ≡ (ok status_no_content, after_delete)
unfolding Users.delete arc_admin.Auth.Authenticate.require_permission byte_len fetch_optional
    arc_admin.Auth.Token.hex exists elem distinct select arc_admin.Service.StepUp.consume
    arc_admin.Repo.StepUp.consume count_where arc_admin.Service.Users.Deletion.delete
    arc_admin.Service.Users.Checks.ensure_actor_can_access arc_admin.Repo.Users.find_by_id_for_actor
    arc_admin.Repo.AuditLogs.record_log arc_admin.Repo.Users.in_data_scope arc_admin.Access.as_str
    arc_admin.Access.from_database arc_admin.Access.has_permission arc_admin.Auth.Authenticate.admit
    arc_admin.Auth.Authenticate.authenticate arc_admin.Auth.Authenticate.find_context
    arc_admin.Auth.Authenticate.session_token arc_admin.Auth.Csrf.validate_csrf
    arc_admin.Auth.Http.cookie arc_admin.Auth.Http.header arc_admin.Auth.Token.token_hash
    delete_where flat_map insert_sorted order_by_id update_where concat
    arc_admin.Repo.Departments.children arc_admin.Repo.Departments.visible_departments
    arc_admin.Repo.Departments.visible_from arc_admin.Repo.Mfa.required
    arc_admin.Repo.Permissions.codes_of_roles arc_admin.Repo.Sessions.Context.admits
    arc_admin.Repo.Sessions.Context.any_role arc_admin.Repo.Sessions.Context.auth_context
    arc_admin.Repo.Sessions.Context.context_of arc_admin.Repo.Sessions.Context.context_with
    arc_admin.Repo.Sessions.Context.holds arc_admin.Repo.Sessions.Context.is_current
    arc_admin.Repo.Sessions.Context.is_owner arc_admin.Repo.Sessions.Context.mfa_satisfied
    arc_admin.Repo.Sessions.Context.session_codes arc_admin.Repo.Sessions.Context.touch
    arc_admin.Repo.Sessions.Context.widest_scope arc_admin.Repo.Sessions.is_open
    arc_admin.Repo.Sessions.revoke_all_for_user arc_admin.Repo.StepUp.is_live
    arc_admin.Repo.Users.find_by_id arc_admin.Repo.Users.holders arc_admin.Repo.Users.is_active
    arc_admin.Repo.Users.is_present arc_admin.Repo.Users.role_ids_by_user
    arc_admin.Repo.Users.soft_delete arc_admin.Repo.Users.super_admin_guard_state
    arc_admin.Service.Passwords.record_session_revocation arc_admin.Service.StepUp.use_grant
    arc_admin.Service.Users.Checks.protect_last_super_admin
    arc_admin.Service.Users.Deletion.delete_one
deputy_deleted = refl

delete_user-IsAuthorized_example :
    (actor : ActorContext) × IsAuthorized call "user:admin:deactivate" "users.delete"
      (managed "users.delete")
      actor
    × (is_some_of (some actor.user_id) 3 ≡ false)
    × IsGone after_delete 3
delete_user-IsAuthorized_example =
    delete_user-IsAuthorized call 3 (managed "users.delete") deputy_deleted

abbrev after_assign : Db
after_assign = (Users.assign_roles call 3 (2 ∷ []) (managed "users.roles.write")).1

deputy_reassigned :
    Users.assign_roles call 3 (2 ∷ []) (managed "users.roles.write")
    ≡ (ok status_no_content, after_assign)
unfolding Users.assign_roles arc_admin.Auth.Authenticate.require_permission byte_len fetch_optional
    arc_admin.Auth.Token.hex exists elem distinct select arc_admin.Service.StepUp.consume
    arc_admin.Repo.StepUp.consume count_where arc_admin.Service.Users.RoleGrants.assign_roles
    arc_admin.Service.Users.Checks.ensure_actor_can_access arc_admin.Repo.Users.find_by_id_for_actor
    arc_admin.Repo.AuditLogs.record_log arc_admin.Repo.Users.in_data_scope arc_admin.Access.as_str
    arc_admin.Access.from_database arc_admin.Access.has_permission arc_admin.Auth.Authenticate.admit
    arc_admin.Auth.Authenticate.authenticate arc_admin.Auth.Authenticate.find_context
    arc_admin.Auth.Authenticate.session_token arc_admin.Auth.Csrf.validate_csrf
    arc_admin.Auth.Http.cookie arc_admin.Auth.Http.header arc_admin.Auth.Token.token_hash
    delete_where flat_map insert_sorted order_by_id update_where concat
    arc_admin.Repo.Departments.children arc_admin.Repo.Departments.visible_departments
    arc_admin.Repo.Departments.visible_from arc_admin.Repo.Mfa.required
    arc_admin.Repo.Permissions.codes_by_role_ids arc_admin.Repo.Permissions.codes_of_roles
    arc_admin.Repo.Permissions.grants_to permission_codes_by_user
    arc_admin.Repo.Roles.active_ids_by_ids arc_admin.Repo.Roles.id_by_code
    arc_admin.Repo.Sessions.Context.admits arc_admin.Repo.Sessions.Context.any_role
    arc_admin.Repo.Sessions.Context.auth_context arc_admin.Repo.Sessions.Context.context_of
    arc_admin.Repo.Sessions.Context.context_with arc_admin.Repo.Sessions.Context.holds
    arc_admin.Repo.Sessions.Context.is_current arc_admin.Repo.Sessions.Context.is_owner
    arc_admin.Repo.Sessions.Context.mfa_satisfied arc_admin.Repo.Sessions.Context.session_codes
    arc_admin.Repo.Sessions.Context.touch arc_admin.Repo.Sessions.Context.widest_scope
    arc_admin.Repo.StepUp.is_live arc_admin.Repo.Users.assign_roles arc_admin.Repo.Users.find_by_id
    arc_admin.Repo.Users.holders arc_admin.Repo.Users.insert_role arc_admin.Repo.Users.insert_roles
    arc_admin.Repo.Users.is_active arc_admin.Repo.Users.is_present
    arc_admin.Repo.Users.role_ids_by_user arc_admin.Repo.Users.super_admin_guard_state
    arc_admin.Service.StepUp.use_grant arc_admin.Service.Users.Checks.exceeds
    arc_admin.Service.Users.Checks.protect_last_super_admin
    arc_admin.Service.Users.Checks.validate_role_grant_scope
    arc_admin.Service.Users.RoleGrants.assign_one
deputy_reassigned = refl

assign_user_roles-IsAuthorized_example :
    (actor : ActorContext) × IsAuthorized call "user:roles:write" "users.roles.write"
      (managed "users.roles.write")
      actor
    × ((code : String)
        → elem code (permission_codes_by_user after_assign 3) ≡ true
        → elem code (permission_codes_by_user (managed "users.roles.write") actor.user_id) ≡ true)
    × ((role_id : ℕ)
        → super_admin_role (managed "users.roles.write") ≡ some role_id
        → has_grant after_assign 3 role_id ≡ true
        → elem grant_super_admin
            (permission_codes_by_user (managed "users.roles.write") actor.user_id)
          ≡ true)
assign_user_roles-IsAuthorized_example =
    assign_user_roles-IsAuthorized call 3 (2 ∷ []) (managed "users.roles.write") deputy_reassigned

abbrev new_password : ChangePasswordRequest
new_password = record { current_password = "correct horse"; new_password = "battery staple 1" }

abbrev after_change : Db
after_change = (change_password call new_password (managed "auth.password.change")).1

password_changed :
    change_password call new_password (managed "auth.password.change")
    ≡ (ok status_no_content, after_change)
unfolding change_password authenticate byte_len fetch_optional arc_admin.Auth.Token.hex exists
    arc_admin.Service.StepUp.consume arc_admin.Repo.StepUp.consume count_where
    arc_admin.Service.Auth.Account.change_password arc_admin.Service.Passwords.validate_password
    char_count arc_admin.Service.Reauth.verify_current_password arc_admin.Repo.Users.find_by_id
    arc_admin.Repo.AuditLogs.record_log arc_admin.Service.Passwords.hash_password
    arc_admin.Repo.Users.update_password arc_admin.Access.from_database
    arc_admin.Auth.Authenticate.admit arc_admin.Auth.Authenticate.find_context
    arc_admin.Auth.Authenticate.session_token arc_admin.Auth.Csrf.validate_csrf
    arc_admin.Auth.Http.cookie header arc_admin.Auth.Token.token_hash distinct elem select
    update_where arc_admin.Repo.Mfa.required arc_admin.Repo.Permissions.codes_of_roles
    arc_admin.Repo.Sessions.Context.admits arc_admin.Repo.Sessions.Context.any_role
    arc_admin.Repo.Sessions.Context.auth_context arc_admin.Repo.Sessions.Context.context_of
    arc_admin.Repo.Sessions.Context.context_with arc_admin.Repo.Sessions.Context.holds
    arc_admin.Repo.Sessions.Context.is_current arc_admin.Repo.Sessions.Context.is_owner
    arc_admin.Repo.Sessions.Context.mfa_satisfied arc_admin.Repo.Sessions.Context.session_codes
    arc_admin.Repo.Sessions.Context.touch arc_admin.Repo.Sessions.Context.widest_scope
    arc_admin.Repo.Sessions.is_open arc_admin.Repo.Sessions.revoke_all_for_user
    arc_admin.Repo.StepUp.is_live arc_admin.Repo.Users.is_active arc_admin.Repo.Users.is_present
    arc_admin.Repo.Users.update_present arc_admin.Service.Auth.Account.check_passwords
    arc_admin.Service.Auth.Account.store_password
    arc_admin.Service.Passwords.record_session_revocation
    arc_admin.Service.Reauth.verify_password_hash arc_admin.Service.StepUp.use_grant
password_changed = refl

change_own_password-signed_out_example :
    (actor : ActorContext) × (token : String) × ((authenticate toy false 1000000 call.request
        (managed "auth.password.change")).0
      ≡ ok actor)
    × (presented (header call.request.headers step_up_header) ≡ some token)
    × (opened toy 1000000 actor.session_id actor.user_id "auth.password.change" token
          (managed "auth.password.change")
        ≡ 1)
    × ((later : ℕ) (request : Request) (other : ActorContext)
        → (authenticate toy false later request after_change).0 ≡ ok other
        → other.user_id ≢ actor.user_id)
change_own_password-signed_out_example =
    change_own_password-signed_out call new_password (managed "auth.password.change")
      password_changed
