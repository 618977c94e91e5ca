-- ===== src/Repo/Roles/Permits.antt =====
-- What `assign_permissions` of backend/src/repositories/roles.rs leaves.
use arc_admin.Prelude.{
  nat_eq, string_eq, >>=-eq-ok, Bool, List, String, [], ap, arith, delete_where, elem, exists,
  false, nat_beq_iff, ok, refl, sym, ℕ, ◌&&◌, ◌++◌, ◌==◌, ◌||◌, ◌∙◌, ◌∷◌, ◌≡◌,
}
use arc_admin.Db.{Db, RolePermissionRow, PermissionRow}
use arc_admin.Repo.Roles.{insert_permission, insert_permissions, assign_permissions}
use arc_admin.Repo.Users.Holders.{exists-append}
use arc_admin.Repo.Permissions.{codes_by_role_ids, codes_by_ids}
use arc_admin.Repo.Permissions.Codes.{elem-codes_of_roles, elem-code, permits}

abbrev permits_of : ℕ → List ℕ → List RolePermissionRow
permits_of role_id [] = []
permits_of role_id (p ∷ ps) =
    record { role_id = role_id; permission_id = p } ∷ permits_of role_id ps

abbrev permits_without : ℕ → List RolePermissionRow → List RolePermissionRow
permits_without role_id rows = delete_where (λ (rp : RolePermissionRow). rp.role_id == role_id) rows

-- The role is given the permission in some of the rows.
abbrev given_in : ℕ → ℕ → List RolePermissionRow → Bool
given_in role_id p rows =
    exists (λ (rp : RolePermissionRow). rp.permission_id == p && elem rp.role_id (role_id ∷ []))
      rows

exists-same :
    {A : Type 0} (p q : A → Bool) (xs : List A) → ((x : A) → p x ≡ q x) → exists p xs ≡ exists q xs
unfolding exists
exists-same p q [] h = refl
exists-same p q (x ∷ xs) h = rw (h x, exists-same p q xs h)

insert_permission-rows :
    (db : Db) (role_id p : ℕ) {db' : Db}
    → insert_permission db role_id p ≡ ok db'
    → db' ≡ record db {
      role_permissions =
          db.role_permissions ++ record { role_id = role_id; permission_id = p } ∷ [];
    }
unfolding insert_permission
insert_permission-rows db role_id p h = ground arith

-- An insertion adds what it inserts, and touches no other table.
insert_permissions-given :
    (db : Db) (role_id : ℕ) (ps : List ℕ) (p : ℕ) {db' : Db}
    → insert_permissions db role_id ps ≡ ok db'
    → (db'.permissions ≡ db.permissions)
      × (given_in role_id p db'.role_permissions
          ≡ (given_in role_id p db.role_permissions || elem p ps))
unfolding insert_permissions elem exists
insert_permissions-given db role_id [] p {db'} h =
    let same : db ≡ db' = ground arith in rw (sym same) (refl, ground arith)
insert_permissions-given db role_id (x ∷ ps) p {db'} h =
    let (next, first, others) = >>=-eq-ok (insert_permission db role_id x) _ h in
    let rows = insert_permission-rows db role_id x first in
    let (same, given) = insert_permissions-given next role_id ps p others in
    let appended =
      exists-append
        (λ (rp : RolePermissionRow). rp.permission_id == p && elem rp.role_id (role_id ∷ []))
        db.role_permissions (record { role_id = role_id; permission_id = x } ∷ []) in
    let one : given_in role_id p next.role_permissions
        ≡ (given_in role_id p db.role_permissions || x == p) =
      ap (λ (d : Db). given_in role_id p d.role_permissions) rows
      ∙ appended
      ∙ ground (arith, nat_beq_iff role_id role_id) in
    (same ∙ ap Db.permissions rows, ground (arith, given, one))

without-given :
    (role_id p : ℕ) (rows : List RolePermissionRow)
    → given_in role_id p (permits_without role_id rows) ≡ false
unfolding exists delete_where elem
without-given role_id p [] = refl
without-given role_id p (rp ∷ rows) = ground (
  arith,
  without-given role_id p rows,
  nat_beq_iff role_id rp.role_id,
  nat_beq_iff rp.role_id role_id,
)

-- After an assignment that succeeded the role has exactly the given permissions.
pub assign_permissions-given :
    (db : Db) (role_id : ℕ) (ps : List ℕ) (p : ℕ) {db' : Db}
    → assign_permissions db role_id ps ≡ ok db'
    → (db'.permissions ≡ db.permissions) × (given_in role_id p db'.role_permissions ≡ elem p ps)
unfolding assign_permissions
assign_permissions-given db role_id ps p h =
    let (same, given) = insert_permissions-given _ role_id ps p h in
    (same, given ∙ ground (arith, without-given role_id p db.role_permissions))

-- The codes of the role are then those of the given permissions.
pub assign_permissions-codes :
    (db : Db) (role_id : ℕ) (ps : List ℕ) (code : String) {db' : Db}
    → assign_permissions db role_id ps ≡ ok db'
    → elem code (codes_by_role_ids db' (role_id ∷ [])) ≡ elem code (codes_by_ids db ps)
unfolding codes_by_role_ids codes_by_ids
assign_permissions-codes db role_id ps code {db'} h =
    elem-codes_of_roles db' (λ r. elem r (role_id ∷ [])) code
    ∙ ap
        (λ (d : List PermissionRow).
          exists
            (λ (x : PermissionRow).
              permits db'.role_permissions (λ r. elem r (role_id ∷ [])) x && x.code == code)
            d)
        (assign_permissions-given db role_id ps 0 h).0
    ∙ exists-same _ _ db.permissions
        (λ (x : PermissionRow). rw (assign_permissions-given db role_id ps x.id h).1)
    ∙ sym (elem-code code (λ (x : PermissionRow). elem x.id ps) db.permissions)
