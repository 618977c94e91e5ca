-- ===== src/Repo/Users/RoleIds.antt =====
-- `role_ids_by_user` of backend/src/repositories/users.rs gives the roles of the user's grants.
use arc_admin.Prelude.{
  nat_eq, List, [], arith, elem, exists, insert_sorted, map, order_by_id, refl, select, ℕ, ◌&&◌,
  ◌==◌, ◌||◌, ◌∙◌, ◌∷◌, ◌≡◌,
}
use arc_admin.Db.{Db, UserRoleRow}
use arc_admin.Repo.Users.{role_ids_by_user}
use arc_admin.Repo.Users.Grants.{has_grant}

elem-insert_sorted : (a x : ℕ) (xs : List ℕ) → elem a (insert_sorted x xs) ≡ (x == a || elem a xs)
unfolding elem insert_sorted
elem-insert_sorted a x [] = ground arith
elem-insert_sorted a x (y ∷ ys) = ground (arith, elem-insert_sorted a x ys)

elem-order_by_id : (a : ℕ) (xs : List ℕ) → elem a (order_by_id xs) ≡ elem a xs
unfolding elem order_by_id
elem-order_by_id a [] = refl
elem-order_by_id a (x ∷ xs) =
    elem-insert_sorted a x (order_by_id xs) ∙ ground (arith, elem-order_by_id a xs)

elem-role_ids :
    (a user_id : ℕ) (rows : List UserRoleRow)
    → elem a (
        map
          (λ (ur : UserRoleRow). ur.role_id)
          (select (λ (ur : UserRoleRow). ur.user_id == user_id) rows))
      ≡ exists (λ (ur : UserRoleRow). ur.user_id == user_id && ur.role_id == a) rows
unfolding elem select exists
elem-role_ids a user_id [] = refl
elem-role_ids a user_id (ur ∷ rows) = ground (arith, elem-role_ids a user_id rows)

pub elem-role_ids_by_user :
    (db : Db) (user_id role_id : ℕ)
    → elem role_id (role_ids_by_user db user_id) ≡ has_grant db user_id role_id
unfolding role_ids_by_user
elem-role_ids_by_user db user_id role_id =
    elem-order_by_id role_id _ ∙ elem-role_ids role_id user_id db.user_roles
