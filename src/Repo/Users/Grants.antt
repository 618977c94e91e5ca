-- ===== src/Repo/Users/Grants.antt =====
-- What `assign_roles` of backend/src/repositories/users.rs leaves.
use arc_admin.Prelude.{
  nat_eq, string_eq, >>=-eq-ok, Bool, Bool-cases, List, [], arith, delete_where, elem, exists,
  exists-delete_other, false, if◌then◌else◌, inl, inr, nat_beq_iff, ok, refl, ℕ, ◌&&◌, ◌++◌, ◌==◌,
  ◌∷◌, ◌≡◌,
}
use arc_admin.Db.{Db, UserRoleRow}
use arc_admin.Repo.Users.{insert_role, insert_roles, assign_roles}
use arc_admin.Repo.Users.Holders.{exists-append}

abbrev pub grants_of : ℕ → List ℕ → List UserRoleRow
grants_of user_id [] = []
grants_of user_id (role_id ∷ role_ids) =
    record { user_id = user_id; role_id = role_id } ∷ grants_of user_id role_ids

abbrev pub grants_without : ℕ → List UserRoleRow → List UserRoleRow
grants_without user_id grants = delete_where (λ (ur : UserRoleRow). ur.user_id == user_id) grants

append_assoc : (xs ys zs : List UserRoleRow) → (xs ++ ys) ++ zs ≡ xs ++ (ys ++ zs)
append_assoc [] ys zs = refl
append_assoc (x ∷ xs) ys zs = rw (append_assoc xs ys zs)

append_nil : (xs : List UserRoleRow) → xs ++ [] ≡ xs
append_nil [] = refl
append_nil (x ∷ xs) = rw (append_nil xs)

insert_role-rows :
    (db : Db) (user_id role_id : ℕ) {db' : Db}
    → insert_role db user_id role_id ≡ ok db'
    → db' ≡ record db {
      user_roles = db.user_roles ++ record { user_id = user_id; role_id = role_id } ∷ [];
    }
unfolding insert_role
insert_role-rows db user_id role_id h = ground arith

insert_roles-rows :
    (db : Db) (user_id : ℕ) (role_ids : List ℕ) {db' : Db}
    → insert_roles db user_id role_ids ≡ ok db'
    → db' ≡ record db { user_roles = db.user_roles ++ grants_of user_id role_ids }
unfolding insert_roles
insert_roles-rows db user_id [] h = rw (append_nil db.user_roles) (ground arith)
insert_roles-rows db user_id (role_id ∷ role_ids) {db'} h =
    let (next, first, others) = >>=-eq-ok (insert_role db user_id role_id) _ h in
    let here = insert_role-rows db user_id role_id first in
    let rest = insert_roles-rows next user_id role_ids others in
    rw (
      rest,
      here,
      append_assoc db.user_roles (record { user_id = user_id; role_id = role_id } ∷ [])
          (grants_of user_id role_ids),
    )

-- Every grant of the user gives way to one for each given role, and nothing else changes.
pub assign_roles-rows :
    (db : Db) (user_id : ℕ) (role_ids : List ℕ) {db' : Db}
    → assign_roles db user_id role_ids ≡ ok db'
    → db' ≡ record db {
      user_roles = grants_without user_id db.user_roles ++ grants_of user_id role_ids;
    }
unfolding assign_roles
assign_roles-rows db user_id role_ids h = insert_roles-rows _ user_id role_ids h

pub grants_of-exists :
    (user_id role_id : ℕ) (role_ids : List ℕ)
    → exists
        (λ (ur : UserRoleRow). ur.user_id == user_id && ur.role_id == role_id)
        (grants_of user_id role_ids)
      ≡ elem role_id role_ids
unfolding exists elem
grants_of-exists user_id role_id [] = refl
grants_of-exists user_id role_id (r ∷ role_ids) =
    ground (arith, nat_beq_iff user_id user_id, grants_of-exists user_id role_id role_ids)

grants_of-other :
    (user_id other role_id : ℕ) (role_ids : List ℕ)
    → (other == user_id) ≡ false
    → exists
        (λ (ur : UserRoleRow). ur.user_id == other && ur.role_id == role_id)
        (grants_of user_id role_ids)
      ≡ false
unfolding exists
grants_of-other user_id other role_id [] h = refl
grants_of-other user_id other role_id (r ∷ role_ids) h = ground (
  arith,
  nat_beq_iff user_id other,
  nat_beq_iff other user_id,
  grants_of-other user_id other role_id role_ids,
)

without-own :
    (user_id role_id : ℕ) (grants : List UserRoleRow)
    → exists
        (λ (ur : UserRoleRow). ur.user_id == user_id && ur.role_id == role_id)
        (grants_without user_id grants)
      ≡ false
unfolding exists delete_where
without-own user_id role_id [] = refl
without-own user_id role_id (ur ∷ grants) = ground (arith, without-own user_id role_id grants)

abbrev pub has_grant : Db → ℕ → ℕ → Bool
has_grant db user_id role_id =
    exists (λ (ur : UserRoleRow). ur.user_id == user_id && ur.role_id == role_id) db.user_roles

-- After a successful assignment the user has exactly the given roles, and every other user the roles
-- of before.
pub assign_roles-has_grant :
    (db : Db) (user_id : ℕ) (role_ids : List ℕ) {db' : Db} (other role_id : ℕ)
    → assign_roles db user_id role_ids ≡ ok db'
    → has_grant db' other role_id
      ≡ (if other == user_id then elem role_id role_ids else has_grant db other role_id)
assign_roles-has_grant db user_id role_ids {db'} other role_id h =
    let parts =
      exists-append (λ (ur : UserRoleRow). ur.user_id == other && ur.role_id == role_id)
        (grants_without user_id db.user_roles) (grants_of user_id role_ids) in
    elim (Bool-cases (other == user_id)) [
      | inl same ↦
          let e : other ≡ user_id = (nat_beq_iff other user_id).0 same in
          rw (
            assign_roles-rows db user_id role_ids h,
            parts,
            same,
            e,
            without-own user_id role_id db.user_roles,
            grants_of-exists user_id role_id role_ids,
          )
      | inr apart ↦
          let kept =
            exists-delete_other (λ (ur : UserRoleRow). ur.user_id == other && ur.role_id == role_id)
              (λ ur. ur.user_id == user_id) db.user_roles
              (λ ur e. ground (
                arith,
                nat_beq_iff other user_id,
                nat_beq_iff ur.user_id other,
                nat_beq_iff ur.user_id user_id,
              )) in
          rw
            (
              assign_roles-rows db user_id role_ids h,
              parts,
              apart,
              grants_of-other user_id other role_id role_ids apart,
              kept,
            )
            (ground arith)
    ]
