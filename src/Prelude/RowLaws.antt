-- ===== src/Prelude/RowLaws.antt =====
-- Laws of the table operations.
use mathlib.Core.Path.{◌≡◌, refl}
use mathlib.Core.Bool.{Bool, true, false}
use mathlib.Core.Option
use mathlib.Core.Option.{none, some}
use mathlib.Core.List.{List, [], ◌∷◌}
use Prim.Native.Nat.{◌+◌, ◌≤◌}
use native.Mathlib.Omega.{arith}
use mathlib.Core.Logic.{inl, inr}
use arc_admin.Prelude.Tests.{if◌then◌else◌, Bool-cases}
use arc_admin.Prelude.Rows.{fetch_optional, exists, update_where, delete_where, count_where}

module _ {ℓ} {A : Type ℓ} where
  -- a row that an UPDATE may have changed
  abbrev pub updated : (A → Bool) → (A → A) → A → A
  updated q f x = if q x then f x else x

  pub fetch-update :
      (p q : A → Bool) (f : A → A) (xs : List A)
      → ((x : A) → p (f x) ≡ p x)
      → fetch_optional p (update_where q f xs) ≡ Option.map (updated q f) (fetch_optional p xs)
  unfolding fetch_optional update_where
  fetch-update p q f [] same = refl
  fetch-update p q f (x ∷ xs) same = ground (arith, same x, fetch-update p q f xs same)

  pub exists-update :
      (p q : A → Bool) (f : A → A) (xs : List A)
      → exists p (update_where q f xs) ≡ exists (λ x. p (updated q f x)) xs
  unfolding exists update_where
  exists-update p q f [] = refl
  exists-update p q f (x ∷ xs) = rw (exists-update p q f xs)

  -- no row that an UPDATE leaves passes a test that no row, changed or kept, passes
  pub exists-update_none :
      (p q : A → Bool) (f : A → A) (xs : List A)
      → ((x : A) → p (updated q f x) ≡ false)
      → exists p (update_where q f xs) ≡ false
  unfolding exists update_where
  exists-update_none p q f [] h = refl
  exists-update_none p q f (x ∷ xs) h = rw (h x) (exists-update_none p q f xs h)

  pub exists-weaken :
      (p q : A → Bool) (xs : List A)
      → ((x : A) → p x ≡ true → q x ≡ true)
      → exists p xs ≡ true
      → exists q xs ≡ true
  unfolding exists
  exists-weaken p q [] h e = cc
  exists-weaken p q (x ∷ xs) h e = ground (arith, h x, exists-weaken p q xs h)

  pub exists-none_weaken :
      (p q : A → Bool) (xs : List A)
      → ((x : A) → p x ≡ true → q x ≡ true)
      → exists q xs ≡ false
      → exists p xs ≡ false
  unfolding exists
  exists-none_weaken p q [] h e = refl
  exists-none_weaken p q (x ∷ xs) h e = ground (arith, h x, exists-none_weaken p q xs h)

  pub exists-delete_none :
      (p q : A → Bool) (xs : List A) → exists p xs ≡ false → exists p (delete_where q xs) ≡ false
  unfolding exists delete_where
  exists-delete_none p q [] h = refl
  exists-delete_none p q (x ∷ xs) h = ground (arith, exists-delete_none p q xs)

  -- a stronger test counts no row where a weaker one finds none
  pub count-none :
      (p q : A → Bool) (xs : List A)
      → ((x : A) → p x ≡ true → q x ≡ true)
      → exists q xs ≡ false
      → count_where p xs ≡ 0
  unfolding exists count_where
  count-none p q [] h e = refl
  count-none p q (x ∷ xs) h e = ground (arith, h x, count-none p q xs h)

  pub count-weaken :
      (p q : A → Bool) (xs : List A)
      → ((x : A) → p x ≡ true → q x ≡ true)
      → count_where p xs ≤ count_where q xs
  unfolding count_where
  count-weaken p q [] h = omega arith
  count-weaken p q (x ∷ xs) h = ground (arith, h x, count-weaken p q xs h)

  pub count-update_same :
      (p q : A → Bool) (f : A → A) (xs : List A)
      → ((x : A) → p (f x) ≡ p x)
      → count_where p (update_where q f xs) ≡ count_where p xs
  unfolding count_where update_where
  count-update_same p q f [] h = refl
  count-update_same p q f (x ∷ xs) h = ground (arith, h x, count-update_same p q f xs h)

  pub count-delete-le :
      (p q : A → Bool) (xs : List A) → count_where p (delete_where q xs) ≤ count_where p xs
  unfolding count_where delete_where
  count-delete-le p q [] = omega arith
  count-delete-le p q (x ∷ xs) = ground (arith, count-delete-le p q xs)

  pub count-exists : (p : A → Bool) (xs : List A) → exists p xs ≡ false → count_where p xs ≡ 0
  count-exists p xs h = count-none p p xs (λ x e. e) h

  -- two tests that never pass together count different rows
  pub count-disjoint :
      (p q r : A → Bool) (xs : List A)
      → ((x : A) → p x ≡ true → (r x ≡ true) × (q x ≡ false))
      → ((x : A) → q x ≡ true → r x ≡ true)
      → count_where p xs + count_where q xs ≤ count_where r xs
  unfolding count_where
  count-disjoint p q r [] hp hq = omega arith
  count-disjoint p q r (x ∷ xs) hp hq = ground (arith, hp x, hq x, count-disjoint p q r xs hp hq)

  pub count-update :
      (p q : A → Bool) (f : A → A) (xs : List A)
      → count_where p (update_where q f xs) ≡ count_where (λ x. p (updated q f x)) xs
  unfolding count_where update_where
  count-update p q f [] = refl
  count-update p q f (x ∷ xs) = rw (count-update p q f xs)

  -- what a query looks for is not among the rows that a DELETE takes
  pub fetch-delete_other :
      (p q : A → Bool) (xs : List A)
      → ((x : A) → p x ≡ true → q x ≡ false)
      → fetch_optional p (delete_where q xs) ≡ fetch_optional p xs
  unfolding fetch_optional delete_where
  fetch-delete_other p q [] h = refl
  fetch-delete_other p q (x ∷ xs) h = ground (arith, h x, fetch-delete_other p q xs h)

  -- what a query looks for is not among the rows that an UPDATE changes, before or after
  pub fetch-update_other :
      (p q : A → Bool) (f : A → A) (xs : List A)
      → ((x : A) → q x ≡ true → (p x ≡ false) × (p (f x) ≡ false))
      → fetch_optional p (update_where q f xs) ≡ fetch_optional p xs
  unfolding fetch_optional update_where
  fetch-update_other p q f [] h = refl
  fetch-update_other p q f (x ∷ xs) h = ground (arith, h x, fetch-update_other p q f xs h)

  pub exists-delete_other :
      (p q : A → Bool) (xs : List A)
      → ((x : A) → p x ≡ true → q x ≡ false)
      → exists p (delete_where q xs) ≡ exists p xs
  unfolding exists delete_where
  exists-delete_other p q [] h = refl
  exists-delete_other p q (x ∷ xs) h = ground (arith, h x, exists-delete_other p q xs h)

  pub fetch-none :
      (p q : A → Bool) (xs : List A)
      → ((x : A) → p x ≡ true → q x ≡ true)
      → exists q xs ≡ false
      → fetch_optional p xs ≡ none
  unfolding fetch_optional exists
  fetch-none p q [] h e = refl
  fetch-none p q (x ∷ xs) h e = ground (arith, h x, fetch-none p q xs h)

  -- the row that a query finds passes its test and is in the table
  pub fetch-true :
      (p : A → Bool) (xs : List A) {row : A} → fetch_optional p xs ≡ some row → p row ≡ true
  unfolding fetch_optional
  fetch-true p [] h = cc
  fetch-true p (x ∷ xs) {row} h = elim (Bool-cases (p x)) [
    | inl hit ↦ ground (arith, hit)
    | inr miss ↦ ground (arith, miss, fetch-true p xs {row = row})
  ]

  pub fetch-exists :
      (p q : A → Bool) (xs : List A) {row : A}
      → fetch_optional p xs ≡ some row
      → q row ≡ true
      → exists q xs ≡ true
  unfolding fetch_optional exists
  fetch-exists p q [] h k = cc
  fetch-exists p q (x ∷ xs) {row} h k = elim (Bool-cases (p x)) [
    | inl hit ↦ ground (arith, hit)
    | inr miss ↦ ground (arith, miss, fetch-exists p q xs {row = row})
  ]

  pub exists-same :
      (p q : A → Bool) (xs : List A) → ((x : A) → p x ≡ q x) → exists p xs ≡ exists q xs
  unfolding exists
  exists-same p q [] h = refl
  exists-same p q (x ∷ xs) h = rw (h x, exists-same p q xs h)

  pub exists-fetch :
      (p : A → Bool) (xs : List A)
      → exists p xs ≡ true
      → (x : A) × (fetch_optional p xs ≡ some x) × (p x ≡ true)
  unfolding fetch_optional exists
  exists-fetch p [] h = cc
  exists-fetch p (x ∷ xs) h = elim (Bool-cases (p x)) [
    | inl hit ↦ (x, rw hit, hit)
    | inr miss ↦
        let (y, found, passes) = exists-fetch p xs (rw miss at h) in (y, rw miss found, passes)
  ]

  pub fetch-first :
      (p : A → Bool) (x : A) (xs : List A) → p x ≡ true → fetch_optional p (x ∷ xs) ≡ some x
  unfolding fetch_optional
  fetch-first p x xs h = rw h

  pub fetch-count :
      (p q : A → Bool) (xs : List A) {row : A}
      → fetch_optional p xs ≡ some row
      → q row ≡ true
      → 1 ≤ count_where q xs
  unfolding fetch_optional count_where
  fetch-count p q [] h k = cc
  fetch-count p q (x ∷ xs) {row} h k = elim (Bool-cases (p x)) [
    | inl hit ↦ ground (arith, hit)
    | inr miss ↦ ground (arith, miss, fetch-count p q xs {row = row})
  ]

  pub fetch-count_none :
      (p : A → Bool) (xs : List A) → count_where p xs ≡ 0 → fetch_optional p xs ≡ none
  unfolding fetch_optional count_where
  fetch-count_none p [] h = refl
  fetch-count_none p (x ∷ xs) h = ground (arith, fetch-count_none p xs)

  -- an UPDATE whose rows fail the test afterwards counts no more than before
  pub count-update-le :
      (p q : A → Bool) (f : A → A) (xs : List A)
      → ((x : A) → p (f x) ≡ false)
      → count_where p (update_where q f xs) ≤ count_where p xs
  unfolding count_where update_where
  count-update-le p q f [] h = omega arith
  count-update-le p q f (x ∷ xs) h = ground (arith, h x, count-update-le p q f xs h)

  -- and fewer, where a changed row passed it
  pub count-update-lt :
      (p q : A → Bool) (f : A → A) (xs : List A)
      → ((x : A) → p (f x) ≡ false)
      → ((x : A) → q x ≡ true → p x ≡ true)
      → exists q xs ≡ true
      → count_where p (update_where q f xs) + 1 ≤ count_where p xs
  unfolding count_where update_where exists
  count-update-lt p q f [] h k e = cc
  count-update-lt p q f (x ∷ xs) h k e =
      ground (arith, h x, k x, count-update-le p q f xs h, count-update-lt p q f xs h k)
