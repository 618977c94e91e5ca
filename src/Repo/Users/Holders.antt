-- ===== src/Repo/Users/Holders.antt =====
-- The holders of a role: what the queries of backend/src/repositories/users.rs count, in terms of the
-- rows of the users.
use arc_admin.Prelude.{
  nat_eq, string_eq, Bool, List, [], arith, distinct, elem, exists, false, flat_map, length, map,
  nat_beq_iff, not, refl, select, ℕ, ◌&&◌, ◌++◌, ◌==◌, ◌||◌, ◌∷◌, ◌≡◌, ◌≤◌,
}
use arc_admin.Db.{UserRow, UserRoleRow}
use arc_admin.Repo.Users.{is_active, has_role, holders}

-- The active user holds the role.
unfoldable pub is_holder : List UserRoleRow → ℕ → UserRow → Bool
unfolding is_active
is_holder grants role_id u = is_active u && has_role grants role_id u

module _ {ℓ} {A : Type ℓ} where
  pub exists-append :
      (p : A → Bool) (xs ys : List A) → exists p (xs ++ ys) ≡ (exists p xs || exists p ys)
  unfolding exists
  exists-append p [] ys = refl
  exists-append p (x ∷ xs) ys = ground (arith, exists-append p xs ys)

  -- the rows of one joined row: the same id once for each row that the test takes
  exists-joined :
      (p : ℕ → Bool) (id : ℕ) (q : A → Bool) (xs : List A)
      → exists p (map (λ (x : A). id) (select q xs)) ≡ (p id && exists q xs)
  unfolding exists select
  exists-joined p id q [] = ground arith
  exists-joined p id q (x ∷ xs) = ground (arith, exists-joined p id q xs)

exists-grants :
    (grants : List UserRoleRow) (role_id : ℕ) (u : UserRow)
    → exists
        (λ (ur : UserRoleRow). ur.user_id == u.id && (ur.role_id == role_id && is_active u))
        grants
      ≡ is_holder grants role_id u
unfolding is_holder exists
exists-grants [] role_id u = ground arith
exists-grants (ur ∷ grants) role_id u = ground (arith, exists-grants grants role_id u)

-- Something holds of some id that the join gives exactly when it holds of a holder's id.
pub exists-holders :
    (p : ℕ → Bool) (users : List UserRow) (grants : List UserRoleRow) (role_id : ℕ)
    → exists p (holders users grants role_id)
      ≡ exists (λ u. p u.id && is_holder grants role_id u) users
unfolding holders exists flat_map
exists-holders p [] grants role_id = refl
exists-holders p (u ∷ users) grants role_id = rw (
  exists-append p _ (holders users grants role_id),
  exists-joined p u.id _ grants,
  exists-grants grants role_id u,
  exists-holders p users grants role_id,
)

pub elem-exists : (a : ℕ) (xs : List ℕ) → elem a xs ≡ exists (λ x. x == a) xs
unfolding elem exists
elem-exists a [] = refl
elem-exists a (x ∷ xs) = rw (elem-exists a xs)

-- Ids that are all the same are one distinct id at most.
pub distinct-same :
    (a : ℕ) (xs : List ℕ) → exists (λ x. not (x == a)) xs ≡ false → length (distinct xs) ≤ 1
unfolding distinct exists elem
distinct-same a [] h = omega arith
distinct-same a (x ∷ []) h = omega arith
distinct-same a (x ∷ y ∷ ys) h =
    ground (arith, distinct-same a (y ∷ ys), nat_beq_iff x a, nat_beq_iff y a, nat_beq_iff y x)
