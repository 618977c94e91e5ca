-- ===== src/Service/Users/SuperAdmin.antt =====
-- The invariant that `protect_last_super_admin` of backend/src/services/users.rs is there for: some
-- active user holds the role of the super administrator.
pub mod Writes
pub mod Deletions
pub mod Written
pub mod Updates
pub mod Assigned
pub mod Assignments
pub mod Reachable
use arc_admin.Prelude.{
  nat_eq, string_eq, Bool, Bool-cases, List, Option, Option-cases, [], arith, distinct, elem,
  exists, exists-weaken, fail_if, false, fetch_optional, inl, inr, is_some_and, leb, length, not,
  ok, refl, some, sym, true, ℕ, ◌&&◌, ◌==◌, ◌∙◌, ◌∷◌, ◌≡◌,
}
use arc_admin.Db.{Db, UserRow, UserRoleRow, RoleRow}
use arc_admin.Repo.Users
use arc_admin.Repo.Users.{holders}
use arc_admin.Repo.Users.Holders.{is_holder, exists-holders, elem-exists, distinct-same}
use arc_admin.Service.Users.Checks.{protect_last_super_admin}
use arc_admin.Error.{ApiError}

abbrev pub super_admin_row : List RoleRow → Option RoleRow
super_admin_row roles = fetch_optional (λ (r : RoleRow). r.code == "super_admin") roles

abbrev pub held : List UserRow → List UserRoleRow → ℕ → Bool
held users grants role_id = exists (is_holder grants role_id) users

abbrev pub held_by_other : ℕ → List UserRow → List UserRoleRow → ℕ → Bool
held_by_other id users grants role_id =
    exists (λ u. not (u.id == id) && is_holder grants role_id u) users

-- Some active user holds the super administrator's role.
unfoldable pub has_super_admin : Db → Bool
has_super_admin db =
    is_some_and (super_admin_row db.roles) λ (r : RoleRow). held db.users db.user_roles r.id

other-absent :
    (a : ℕ) (xs : List ℕ)
    → elem a xs ≡ false
    → exists (λ x. true) xs ≡ true
    → exists (λ x. not (x == a)) xs ≡ true
unfolding elem exists
other-absent a [] h e = cc
other-absent a (x ∷ xs) h e = ground arith

other-several :
    (a : ℕ) (xs : List ℕ)
    → leb (length (distinct xs)) 1 ≡ false
    → exists (λ x. not (x == a)) xs ≡ true
other-several a xs h = elim (Bool-cases (exists (λ x. not (x == a)) xs)) [
  | inl other ↦ other
  | inr same ↦ absurd (ground (arith, distinct-same a xs same))
]

other_holder :
    (a : ℕ) (xs : List ℕ)
    → (elem a xs && leb (length (distinct xs)) 1) ≡ false
    → exists (λ x. true) xs ≡ true
    → exists (λ x. not (x == a)) xs ≡ true
other_holder a xs h e = ground (arith, other-absent a xs, other-several a xs)

pub super_admin_row-held :
    (db : Db)
    → has_super_admin db ≡ true
    → (role : RoleRow) × (super_admin_row db.roles ≡ some role)
      × (held db.users db.user_roles role.id ≡ true)
unfolding has_super_admin
super_admin_row-held db h = elim (Option-cases (super_admin_row db.roles)) [
  | inl missing ↦ absurd (ground (arith, missing))
  | inr (role, e) ↦ (role, e, ground (arith, e))
]

pub has_super_admin-held :
    (db : Db) (role : RoleRow)
    → super_admin_row db.roles ≡ some role
    → held db.users db.user_roles role.id ≡ true
    → has_super_admin db ≡ true
unfolding has_super_admin
has_super_admin-held db role e h = rw e h

guard-passed : (b : Bool) (e : ApiError) → fail_if b e ≡ ok tt → b ≡ false
guard-passed true e h = cc
guard-passed false e h = refl

guard_state :
    (db : Db) (id : ℕ) (role : RoleRow)
    → super_admin_row db.roles ≡ some role
    → Users.super_admin_guard_state db id ≡ (
      elem id (holders db.users db.user_roles role.id),
      length (distinct (holders db.users db.user_roles role.id)),
    )
unfolding Users.super_admin_guard_state
guard_state db id role e = rw e

-- Where the guard lets a change of a user pass, another active user holds the role.
pub protect-held_by_other :
    (db : Db) (id : ℕ) (role : RoleRow)
    → protect_last_super_admin db id ≡ ok tt
    → super_admin_row db.roles ≡ some role
    → held db.users db.user_roles role.id ≡ true
    → held_by_other id db.users db.user_roles role.id ≡ true
unfolding protect_last_super_admin
protect-held_by_other db id role h e one =
    let ids = holders db.users db.user_roles role.id in
    let passed : (elem id ids && leb (length (distinct ids)) 1) ≡ false =
      guard-passed _ _ (rw (guard_state db id role e) at h) in
    let some_id : exists (λ x. true) ids ≡ true =
      exists-holders (λ x. true) db.users db.user_roles role.id ∙ one in
    sym (exists-holders (λ x. not (x == id)) db.users db.user_roles role.id)
    ∙ other_holder id ids passed some_id

pub held-other :
    (id : ℕ) (users : List UserRow) (grants : List UserRoleRow) (role_id : ℕ)
    → held_by_other id users grants role_id ≡ true
    → held users grants role_id ≡ true
held-other id users grants role_id h = exists-weaken _ _ users (λ u e. ground arith) h
