-- ===== src/Service/Users/SuperAdmin/Assigned.antt =====
-- What an assignment of roles leaves of the holders of the super administrator's role.
use arc_admin.Prelude.{
  nat_eq, string_eq, Bool, Bool-cases, List, Option, Option-cases, [], arith, count_where, elem,
  exists-weaken, fetch_optional, if◌then◌else◌, inl, inr, none, ok, some, true, ℕ, ◌&&◌, ◌==◌, ◌∷◌,
  ◌≡◌, ◌≤◌, ◌⊎◌,
}
use arc_admin.Db.{Db, RoleRow}
use arc_admin.Repo.Users
use arc_admin.Repo.Users.{has_role, is_active}
use arc_admin.Repo.Users.Holders.{is_holder}
use arc_admin.Repo.Users.Grants.{assign_roles-rows, assign_roles-has_grant}
use arc_admin.Repo.Roles
use arc_admin.Service.Users.Checks.{protect_last_super_admin, super_admin_role}
use arc_admin.Service.Users.RoleGrants.{holds}
use arc_admin.Service.Users.SuperAdmin.{
  has_super_admin, super_admin_row, super_admin_row-held, has_super_admin-held,
  protect-held_by_other, held_by_other, held,
}

-- What UNIQUE (code) keeps of the table of roles, for the one code that matters here.
abbrev pub HasOneSuperAdminRole : Db → Type 0
HasOneSuperAdminRole db = count_where (λ (r : RoleRow). r.code == "super_admin") db.roles ≤ 1

found-counted :
    (p q : RoleRow → Bool) (rows : List RoleRow) (b : RoleRow)
    → fetch_optional (λ r. p r && q r) rows ≡ some b
    → 1 ≤ count_where p rows
unfolding fetch_optional count_where
found-counted p q [] b e = cc
found-counted p q (r ∷ rows) b e = ground (arith, found-counted p q rows b)

fetch_unique :
    (p q : RoleRow → Bool) (rows : List RoleRow) (a b : RoleRow)
    → count_where p rows ≤ 1
    → fetch_optional p rows ≡ some a
    → fetch_optional (λ r. p r && q r) rows ≡ some b
    → a ≡ b
unfolding fetch_optional count_where
fetch_unique p q [] a b u ea eb = cc
fetch_unique p q (r ∷ rows) a b u ea eb =
    ground (arith, fetch_unique p q rows a b, found-counted p q rows b)

-- The active role of the code is the one that the guard looks up.
same_role :
    (db : Db) (role : RoleRow) (id : ℕ)
    → HasOneSuperAdminRole db
    → super_admin_row db.roles ≡ some role
    → super_admin_role db ≡ some id
    → role.id ≡ id
unfolding Roles.id_by_code
same_role db role id unique e h =
    elim (Option-cases
      (fetch_optional (λ (r : RoleRow). r.code == "super_admin" && r.is_active) db.roles)) [
        | inl missing ↦ absurd (ground (arith, missing))
        | inr (found, e') ↦
            let same =
              fetch_unique (λ (r : RoleRow). r.code == "super_admin") (λ (r : RoleRow). r.is_active)
                db.roles role found unique e e' in
            ground (arith, same, e')
      ]

-- Where another user holds the role, or the role is among the new ones, someone holds it afterwards.
held-assigned :
    (db db' : Db) (user_id k : ℕ) (role_ids : List ℕ)
    → Users.assign_roles db user_id role_ids ≡ ok db'
    → (elem k role_ids ≡ true) ⊎ (held_by_other user_id db.users db.user_roles k ≡ true)
    → held db.users db.user_roles k ≡ true
    → held db.users db'.user_roles k ≡ true
unfolding is_holder
held-assigned db db' user_id k role_ids h (inl new) one =
    exists-weaken _ _ db.users
      (λ u e. ground (arith, assign_roles-has_grant db user_id role_ids u.id k h)) one
held-assigned db db' user_id k role_ids h (inr other) one =
    exists-weaken _ _ db.users
      (λ u e. ground (arith, assign_roles-has_grant db user_id role_ids u.id k h)) other

guard-way :
    (db : Db) (user_id : ℕ) (super_admin : Option ℕ) (role_ids : List ℕ) (role : RoleRow)
    → HasOneSuperAdminRole db
    → super_admin_role db ≡ super_admin
    → (if holds super_admin role_ids then ok tt else protect_last_super_admin db user_id) ≡ ok tt
    → super_admin_row db.roles ≡ some role
    → held db.users db.user_roles role.id ≡ true
    → (elem role.id role_ids ≡ true) ⊎ (held_by_other user_id db.users db.user_roles role.id ≡ true)
guard-way db user_id none role_ids role unique known guarded e here =
    inr (protect-held_by_other db user_id role guarded e here)
guard-way db user_id (some k) role_ids role unique known guarded e here =
    elim (Bool-cases (elem k role_ids)) [
      | inl new ↦ inl (rw (same_role db role k unique e known) new)
      | inr out ↦ inr (protect-held_by_other db user_id role (rw out at guarded) e here)
    ]

pub assigned-has_super_admin :
    (db db' : Db) (user_id : ℕ) (super_admin : Option ℕ) (role_ids : List ℕ)
    → HasOneSuperAdminRole db
    → super_admin_role db ≡ super_admin
    → (if holds super_admin role_ids then ok tt else protect_last_super_admin db user_id) ≡ ok tt
    → Users.assign_roles db user_id role_ids ≡ ok db'
    → has_super_admin db ≡ true
    → has_super_admin db' ≡ true
assigned-has_super_admin db db' user_id super_admin role_ids unique known guarded h one =
    let (role, e, here) = super_admin_row-held db one in
    let kept : db' ≡ record db { user_roles = db'.user_roles } =
      rw (assign_roles-rows db user_id role_ids h) in
    let some_way : (elem role.id role_ids ≡ true)
        ⊎ (held_by_other user_id db.users db.user_roles role.id ≡ true) =
      guard-way db user_id super_admin role_ids role unique known guarded e here in
    rw kept (
      has_super_admin-held _ role e (held-assigned db db' user_id role.id role_ids h some_way here))
