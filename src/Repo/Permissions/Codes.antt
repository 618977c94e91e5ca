-- ===== src/Repo/Permissions/Codes.antt =====
-- Which permission codes the queries of backend/src/repositories/permissions.rs give.
use arc_admin.Prelude.{
  nat_eq, string_eq, Bool, Bool-cases, List, String, [], arith, distinct, elem, exists,
  exists-weaken, false, inl, inr, map, not, refl, select, sym, true, ℕ, ◌&&◌, ◌==◌, ◌∙◌, ◌∷◌, ◌≡◌,
}
use package.text.Mathlib.TextEquality.{eq_iff}
use arc_admin.Db.{Db, PermissionRow, RolePermissionRow}
use arc_admin.Repo.Permissions.{codes_of_roles}

pub elem-distinct : (a : String) (xs : List String) → elem a (distinct xs) ≡ elem a xs
unfolding distinct elem
elem-distinct a [] = refl
elem-distinct a (x ∷ xs) = ground (arith, elem-distinct a xs, eq_iff x a)

pub elem-code :
    (code : String) (p : PermissionRow → Bool) (rows : List PermissionRow)
    → elem code (map (λ (r : PermissionRow). r.code) (select p rows))
      ≡ exists (λ r. p r && r.code == code) rows
unfolding elem select exists
elem-code code p [] = refl
elem-code code p (r ∷ rows) = ground (arith, elem-code code p rows)

-- Some role of the test has the permission.
abbrev pub permits : List RolePermissionRow → (ℕ → Bool) → PermissionRow → Bool
permits grants of_role p =
    exists (λ (rp : RolePermissionRow). rp.permission_id == p.id && of_role rp.role_id) grants

pub elem-codes_of_roles :
    (db : Db) (of_role : ℕ → Bool) (code : String)
    → elem code (codes_of_roles db of_role)
      ≡ exists
          (λ (p : PermissionRow). permits db.role_permissions of_role p && p.code == code)
          db.permissions
unfolding codes_of_roles
elem-codes_of_roles db of_role code = elem-distinct code _ ∙ elem-code code _ db.permissions

permits-weaken :
    (grants : List RolePermissionRow) (p q : ℕ → Bool) (x : PermissionRow)
    → ((r : ℕ) → p r ≡ true → q r ≡ true)
    → permits grants p x ≡ true
    → permits grants q x ≡ true
permits-weaken grants p q x h e =
    exists-weaken _ _ grants (λ (rp : RolePermissionRow) t. ground (arith, h rp.role_id)) e

-- Of the same permissions, a test that takes fewer roles gives fewer codes.
pub codes-weaken :
    (db db' : Db) (p q : ℕ → Bool) (code : String)
    → db.permissions ≡ db'.permissions
    → db.role_permissions ≡ db'.role_permissions
    → ((r : ℕ) → p r ≡ true → q r ≡ true)
    → elem code (codes_of_roles db p) ≡ true
    → elem code (codes_of_roles db' q) ≡ true
codes-weaken db db' p q code ep er h e =
    let in_db : exists (λ (x : PermissionRow). permits db.role_permissions p x && x.code == code)
          db.permissions
        ≡ true =
      sym (elem-codes_of_roles db p code) ∙ e in
    elem-codes_of_roles db' q code
    ∙ exists-weaken (λ (x : PermissionRow). permits db'.role_permissions p x && x.code == code) _
        db'.permissions (λ x both. ground (arith, permits-weaken db'.role_permissions p q x h))
        (rw (sym ep, sym er) in_db)

-- What does not exceed a list is in it.
pub elem-within :
    (code : String) (requested owned : List String)
    → exists (λ c. not (elem c owned)) requested ≡ false
    → elem code requested ≡ true
    → elem code owned ≡ true
unfolding exists elem
elem-within code [] owned h e = cc
elem-within code (c ∷ requested) owned h e = elim (Bool-cases (c == code)) [
  | inl same ↦ let eq : c ≡ code = (eq_iff c code).0 same in rw (sym eq) (ground arith)
  | inr other ↦ elem-within code requested owned (ground arith) (ground arith)
]
