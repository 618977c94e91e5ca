-- ===== src/Service/Users/SuperAdmin/Reachable.antt =====
-- The calls of backend/src/services/users.rs that change existing users, one after the other: every
-- one of them may be called by anyone with any request, and those that fail change nothing.
use arc_admin.Prelude.{nat_eq, string_eq, Bool, List, Option, ok, refl, true, ℕ, ◌∙◌, ◌≡◌}
use arc_admin.Access.{ActorContext}
use arc_admin.External.{External}
use arc_admin.Db.{Db, UserRow}
use arc_admin.Service.Users.Requests.{UpdateUserRequest}
use arc_admin.Service.Users.Profile.{update}
use arc_admin.Service.Users.Deletion.{delete, delete_many}
use arc_admin.Service.Users.RoleGrants.{assign_roles, assign_roles_many}
use arc_admin.Service.Users.SuperAdmin.{has_super_admin}
use arc_admin.Service.Users.SuperAdmin.Deletions.{
  delete-has_super_admin, delete_many-has_super_admin, delete-roles, delete_many-roles,
}
use arc_admin.Service.Users.SuperAdmin.Updates.{update-has_super_admin, update-roles}
use arc_admin.Service.Users.SuperAdmin.Assigned.{HasOneSuperAdminRole}
use arc_admin.Service.Users.SuperAdmin.Assignments.{
  assign_roles-has_super_admin, assign_roles_many-has_super_admin, assign_roles-roles,
  assign_roles_many-roles,
}

-- One committed call.
pub data Step (db db' : Db) : Type 0 where
  updates :
      (ext : External) (salt : List ℕ) (now id : ℕ) (actor : Option ActorContext)
      (req : UpdateUserRequest) (can_grant can_assign : Bool) (row : UserRow)
      → update ext salt now id actor req can_grant can_assign db ≡ ok (row, db')
      → Step db db'
  deletes :
      (now id : ℕ) (actor : Option ActorContext) → delete now id actor db ≡ ok db' → Step db db'
  deletes_many :
      (now : ℕ) (actor : Option ActorContext) (user_ids : List ℕ)
      → delete_many now actor user_ids db ≡ ok db'
      → Step db db'
  assigns :
      (user_id : ℕ) (actor : Option ActorContext) (role_ids : List ℕ) (can_grant : Bool)
      → assign_roles user_id actor role_ids can_grant db ≡ ok db'
      → Step db db'
  assigns_many :
      (actor : Option ActorContext) (user_ids role_ids : List ℕ) (can_grant : Bool)
      → assign_roles_many actor user_ids role_ids can_grant db ≡ ok db'
      → Step db db'

-- Any number of calls.
pub data Reachable (db : Db) : Db → Type 0 where
  start : Reachable db db
  after : {middle db' : Db} → Reachable db middle → Step middle db' → Reachable db db'

Step-has_super_admin :
    (db db' : Db)
    → HasOneSuperAdminRole db
    → Step db db'
    → has_super_admin db ≡ true
    → has_super_admin db' ≡ true
Step-has_super_admin db db' unique (updates ext salt now id actor req can_grant can_assign row h)
      one =
    update-has_super_admin ext salt now id actor req can_grant can_assign db h one
Step-has_super_admin db db' unique (deletes now id actor h) one =
    delete-has_super_admin now id actor db h one
Step-has_super_admin db db' unique (deletes_many now actor user_ids h) one =
    delete_many-has_super_admin now actor user_ids db h one
Step-has_super_admin db db' unique (assigns user_id actor role_ids can_grant h) one =
    assign_roles-has_super_admin user_id actor role_ids can_grant db unique h one
Step-has_super_admin db db' unique (assigns_many actor user_ids role_ids can_grant h) one =
    assign_roles_many-has_super_admin actor user_ids role_ids can_grant db unique h one

Step-roles : (db db' : Db) → Step db db' → db'.roles ≡ db.roles
Step-roles db db' (updates ext salt now id actor req can_grant can_assign row h) =
    update-roles ext salt now id actor req can_grant can_assign db h
Step-roles db db' (deletes now id actor h) = delete-roles now id actor db h
Step-roles db db' (deletes_many now actor user_ids h) = delete_many-roles now actor user_ids db h
Step-roles db db' (assigns user_id actor role_ids can_grant h) =
    assign_roles-roles user_id actor role_ids can_grant db h
Step-roles db db' (assigns_many actor user_ids role_ids can_grant h) =
    assign_roles_many-roles actor user_ids role_ids can_grant db h

Reachable-roles : (db db' : Db) → Reachable db db' → db'.roles ≡ db.roles
Reachable-roles db _ start = refl
Reachable-roles db db' (after {middle} before step) =
    Step-roles middle db' step ∙ Reachable-roles db middle before

-- In every state that updates, deletions and assignments of roles reach, one by one or in batches,
-- there is an active super administrator, if there was one at the start and the code of that role is
-- unique.
pub Reachable-has_super_admin :
    (db db' : Db)
    → HasOneSuperAdminRole db
    → has_super_admin db ≡ true
    → Reachable db db'
    → has_super_admin db' ≡ true
Reachable-has_super_admin db _ unique one start = one
Reachable-has_super_admin db db' unique one (after {middle} before step) =
    Step-has_super_admin middle db' (rw (Reachable-roles db middle before) unique) step
      (Reachable-has_super_admin db middle unique one before)
