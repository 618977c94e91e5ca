-- ===== src/Service/Roles/Privileges.antt =====
-- What an actor may put into a role: `assign_permissions` of backend/src/services/roles.rs.
use arc_admin.Prelude.{
  nat_eq, string_eq, >>=-eq-ok, List, Option, String, [], ap, arith, distinct, elem, err,
  fail_if-eq-ok, false, ok, ok_or-eq-ok, some, sym, true, ℕ, ◌==◌, ◌∙◌, ◌∷◌, ◌≡◌,
}
use arc_admin.Error.{Api, Sql, not_found, from_db}
use arc_admin.Db.{Db, RoleRow, Detail}
use arc_admin.Repo.Roles
use arc_admin.Repo.Roles.Permits.{assign_permissions-codes}
use arc_admin.Repo.Permissions
use arc_admin.Repo.Permissions.{codes_by_ids, codes_by_role_ids, permission_codes_by_user}
use arc_admin.Repo.Permissions.Codes.{elem-distinct, elem-within}
use arc_admin.Repo.AuditLogs.{record_log}
use arc_admin.Service.Users.Checks.{exceeds}
use arc_admin.Service.Roles.{
  assign_permissions, validate_permission_dependencies, validate_permission_grant_scope,
}

validate_permission_dependencies-ok :
    (db : Db) (ps : List ℕ) {codes : List String}
    → validate_permission_dependencies db ps ≡ ok codes
    → codes ≡ distinct (codes_by_ids db ps)
unfolding validate_permission_dependencies
validate_permission_dependencies-ok db ps h = ground arith

validate_permission_grant_scope-ok :
    (pool : Db) (actor : ℕ) (codes : List String) (code : String)
    → validate_permission_grant_scope pool (some actor) codes ≡ ok tt
    → elem code codes ≡ true
    → elem code (permission_codes_by_user pool actor) ≡ true
unfolding validate_permission_grant_scope exceeds
validate_permission_grant_scope-ok pool actor codes code h e =
    elem-within code codes (permission_codes_by_user pool actor) (ground arith) e

from_db-ok : {A : Type 0} (m : Sql A) {a : A} → from_db m ≡ ok a → m ≡ ok a
from_db-ok (ok b) h = ground arith
from_db-ok (err e) h = cc

abbrev done : Db → Api Db
done db = ok db

logged-codes :
    (assigned db' : Db) (actor : Option ℕ) (id : ℕ) (details : List (String × Detail))
    (role_ids : List ℕ) (code : String)
    → done (record_log assigned actor "role.permissions.update" "role" (some id) details) ≡ done db'
    → elem code (codes_by_role_ids db' role_ids) ≡ elem code (codes_by_role_ids assigned role_ids)
unfolding record_log codes_by_role_ids Permissions.codes_of_roles
logged-codes assigned db' actor id details role_ids code h =
    let same : record_log assigned actor "role.permissions.update" "role" (some id) details ≡ db' =
      ground arith in
    rw (sym same)

-- Where an actor set the permissions of a role: the role exists and is not the super administrator's,
-- and every permission that it then carries is one of the actor's.
pub assign_permissions-actor :
    (actor id : ℕ) (ps : List ℕ) (pool : Db) {db' : Db}
    → assign_permissions (some actor) id ps pool ≡ ok db'
    → ((role : RoleRow) × (Roles.find_by_id pool id ≡ some role)
        × ((role.code == "super_admin") ≡ false))
      × ((code : String)
          → elem code (codes_by_role_ids db' (id ∷ [])) ≡ true
          → elem code (permission_codes_by_user pool actor) ≡ true)
unfolding assign_permissions
assign_permissions-actor actor id ps pool {db'} h =
    let (role, found, h1) = ok_or-eq-ok (Roles.find_by_id pool id) (not_found "角色不存在") _ h in
    let (other, h2) = fail_if-eq-ok (role.code == "super_admin") _ _ h1 in
    let (codes, listed, h3) = >>=-eq-ok (validate_permission_dependencies pool ps) _ h2 in
    let (_, within, h4) =
      >>=-eq-ok (validate_permission_grant_scope pool (some actor) codes) _ h3 in
    let (assigned, written, h5) = >>=-eq-ok (from_db (Roles.assign_permissions pool id ps)) _ h4 in
    (
      (role, found, other),
      λ code has. validate_permission_grant_scope-ok pool actor codes code within (
          ap (elem code) (validate_permission_dependencies-ok pool ps listed)
          ∙ elem-distinct code (codes_by_ids pool ps)
          ∙ sym (assign_permissions-codes pool id ps code (from_db-ok _ written))
          ∙ sym (logged-codes assigned db' (some actor) id _ (id ∷ []) code h5)
          ∙ has),
    )
