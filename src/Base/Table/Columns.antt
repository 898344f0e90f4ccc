-- ===== src/Base/Table/Columns.antt =====
-- The values of one column, in the order of the rows: what the statements do to a property of
-- each of them and to a relation between any two.
use mathlib.Core.Path.{◌≡◌, refl, ap, ap₂}
use mathlib.Core.Logic.{inl, inr}
use mathlib.Core.Bool.{Bool}
use mathlib.Core.List.{List, [], ◌∷◌, map}
use realxianyu.Base.Tests.{Bool-cases}
use realxianyu.Base.Lists.{All, Pairs}
use realxianyu.Base.Table.{update_where, delete_where, select_where}

module _ {ℓ κ} {A : Type ℓ} {B : Type κ} (p : A → Bool) (f : A → A) (g : A → B) where
  -- a column that the update does not set is unchanged
  pub map-update_where :
      (xs : List A) → ((x : A) → g (f x) ≡ g x) → map g (update_where p f xs) ≡ map g xs
  unfolding update_where
  map-update_where [] h = refl
  map-update_where (x ∷ xs) h = elim (Bool-cases (p x)) [
    | inl e ↦ rw e (ap₂ (λ a b. a ∷ b) (h x) (map-update_where xs h))
    | inr e ↦ rw e (ap (λ b. g x ∷ b) (map-update_where xs h))
  ]

module _ {ℓ κ μ} {A : Type ℓ} {B : Type κ} (p : A → Bool) (g : A → B) (P : B → Type μ) where
  pub All-map-delete_where : (xs : List A) → All P (map g xs) → All P (map g (delete_where p xs))
  unfolding delete_where
  All-map-delete_where [] h = tt
  All-map-delete_where (x ∷ xs) h = elim (Bool-cases (p x)) [
    | inl e ↦ rw e (All-map-delete_where xs h.1)
    | inr e ↦ rw e (h.0, All-map-delete_where xs h.1)
  ]

  pub All-map-select_where : (xs : List A) → All P (map g xs) → All P (map g (select_where p xs))
  unfolding select_where
  All-map-select_where [] h = tt
  All-map-select_where (x ∷ xs) h = elim (Bool-cases (p x)) [
    | inl e ↦ rw e (h.0, All-map-select_where xs h.1)
    | inr e ↦ rw e (All-map-select_where xs h.1)
  ]

module _ {ℓ κ μ} {A : Type ℓ} {B : Type κ} (p : A → Bool) (g : A → B) (R : B → B → Type μ) where
  pub Pairs-map-delete_where :
      (xs : List A) → Pairs R (map g xs) → Pairs R (map g (delete_where p xs))
  unfolding delete_where
  Pairs-map-delete_where [] h = tt
  Pairs-map-delete_where (x ∷ xs) h = elim (Bool-cases (p x)) [
    | inl e ↦ rw e (Pairs-map-delete_where xs h.1)
    | inr e ↦ rw e (All-map-delete_where p g (R (g x)) xs h.0, Pairs-map-delete_where xs h.1)
  ]

  pub Pairs-map-select_where :
      (xs : List A) → Pairs R (map g xs) → Pairs R (map g (select_where p xs))
  unfolding select_where
  Pairs-map-select_where [] h = tt
  Pairs-map-select_where (x ∷ xs) h = elim (Bool-cases (p x)) [
    | inl e ↦ rw e (All-map-select_where p g (R (g x)) xs h.0, Pairs-map-select_where xs h.1)
    | inr e ↦ rw e (Pairs-map-select_where xs h.1)
  ]
