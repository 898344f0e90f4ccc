-- ===== src/Base/Table/Exists.antt =====
-- Whether a SELECT finds a row, as a test of the rows one by one, after the statements that write.
use mathlib.Core.Path.{◌≡◌, refl}
use mathlib.Core.Bool.{Bool, false, ◌&&◌, ◌||◌}
use mathlib.Core.List.{List, [], ◌∷◌, ◌++◌}
use native.Mathlib.Omega.{arith}
use realxianyu.Base.Table.{update_where, delete_where, find_where, exists_where}

module _ {ℓ} {A : Type ℓ} (p : A → Bool) where
  pub exists_where-cons :
      (x : A) (xs : List A) → exists_where p (x ∷ xs) ≡ (p x || exists_where p xs)
  unfolding exists_where find_where
  exists_where-cons x xs = ground arith

  pub exists_where-append :
      (xs ys : List A) → exists_where p (xs ++ ys) ≡ (exists_where p xs || exists_where p ys)
  unfolding exists_where find_where
  exists_where-append [] ys = refl
  exists_where-append (x ∷ xs) ys = ground (arith, exists_where-append xs ys)

  pub exists_where-one : (y : A) → exists_where p (y ∷ []) ≡ p y
  unfolding exists_where find_where
  exists_where-one y = ground arith

  pub exists_where-delete_where : (xs : List A) → exists_where p (delete_where p xs) ≡ false
  unfolding exists_where find_where delete_where
  exists_where-delete_where [] = refl
  exists_where-delete_where (x ∷ xs) = ground (arith, exists_where-delete_where xs)

-- `p` has the value `b` on every row that is written, and `q` is its key
module _ {ℓ} {A : Type ℓ} (q p : A → Bool) where
  pub exists_where-update_where :
      (f : A → A) (b : Bool) (xs : List A)
      → ((x : A) → q (f x) ≡ q x)
      → ((x : A) → p (f x) ≡ b)
      → exists_where (λ x. q x && p x) (update_where q f xs) ≡ (exists_where q xs && b)
  unfolding exists_where find_where update_where
  exists_where-update_where f b [] hq hp = refl
  exists_where-update_where f b (x ∷ xs) hq hp =
      ground (arith, exists_where-update_where f b xs hq hp, hq x, hp x)

  -- the rows of both conditions are rows of the first
  pub exists_where_both :
      (xs : List A) → exists_where q xs ≡ false → exists_where (λ x. q x && p x) xs ≡ false
  unfolding exists_where find_where
  exists_where_both [] h = refl
  exists_where_both (x ∷ xs) h = ground (arith, exists_where_both xs)
