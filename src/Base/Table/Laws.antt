-- ===== src/Base/Table/Laws.antt =====
-- What the statements do to a property of every row, to a column that they leave alone, and to
-- the row that a key finds.
use Prim.Native.Nat.{◌≤◌, ◌<◌}
use mathlib.Core.Path.{◌≡◌, refl, ap, subst}
use mathlib.Core.Logic.{inl, inr}
use mathlib.Core.Bool.{Bool, true, false}
use mathlib.Core.List.{List, [], ◌∷◌, ◌++◌}
use mathlib.Core.Option
use mathlib.Core.Option.{Option, none, some}
use native.Mathlib.Omega.{arith}
use realxianyu.Base.Tests.{if◌then◌else◌, Bool-cases}
use realxianyu.Base.Lists.{All}
use realxianyu.Base.Table.{
  update_where, count_where, delete_where, select_where, find_where, exists_where,
}

module _ {ℓ κ μ} {A : Type ℓ} (P : A → Type κ) (Q : A → Type μ) (p : A → Bool) (f : A → A) where
  pub All-update_where :
      (xs : List A)
      → ((x : A) → P x → p x ≡ true → Q (f x))
      → ((x : A) → P x → p x ≡ false → Q x)
      → All P xs
      → All Q (update_where p f xs)
  unfolding update_where
  All-update_where [] hit miss h = tt
  All-update_where (x ∷ xs) hit miss h = elim (Bool-cases (p x)) [
    | inl e ↦ rw e (hit x h.0 e, All-update_where xs hit miss h.1)
    | inr e ↦ rw e (miss x h.0 e, All-update_where xs hit miss h.1)
  ]

module _ {ℓ κ} {A : Type ℓ} (P : A → Type κ) (p : A → Bool) where
  pub All-delete_where : (xs : List A) → All P xs → All P (delete_where p xs)
  unfolding delete_where
  All-delete_where [] h = tt
  All-delete_where (x ∷ xs) h = elim (Bool-cases (p x)) [
    | inl e ↦ rw e (All-delete_where xs h.1)
    | inr e ↦ rw e (h.0, All-delete_where xs h.1)
  ]

  pub All-select_where : (xs : List A) → All P xs → All P (select_where p xs)
  unfolding select_where
  All-select_where [] h = tt
  All-select_where (x ∷ xs) h = elim (Bool-cases (p x)) [
    | inl e ↦ rw e (h.0, All-select_where xs h.1)
    | inr e ↦ rw e (All-select_where xs h.1)
  ]

  -- a row that is found has the property of every row
  pub All-find_where : (xs : List A) {x : A} → All P xs → find_where p xs ≡ some x → P x
  unfolding find_where
  All-find_where [] h e = cc
  All-find_where (y ∷ xs) {x} h e = elim (Bool-cases (p y)) [
    | inl t ↦ let same : some y ≡ some x = rw t at e in subst P (cc) h.0
    | inr t ↦ All-find_where xs h.1 (rw t at e)
  ]

module _ {ℓ} {A : Type ℓ} (p : A → Bool) where
  -- every row that is selected meets the condition
  pub select_where_holds : (xs : List A) → All (λ x. p x ≡ true) (select_where p xs)
  unfolding select_where
  select_where_holds [] = tt
  select_where_holds (x ∷ xs) = elim (Bool-cases (p x)) [
    | inl e ↦ rw e (e, select_where_holds xs)
    | inr e ↦ rw e (select_where_holds xs)
  ]

  pub find_where_holds : (xs : List A) {x : A} → find_where p xs ≡ some x → p x ≡ true
  unfolding find_where
  find_where_holds [] e = cc
  find_where_holds (y ∷ xs) {x} e = ground (arith, find_where_holds xs {x = x})

  pub find_where-append :
      (xs ys : List A)
      → find_where p (xs ++ ys) ≡ (if exists_where p xs then find_where p xs else find_where p ys)
  unfolding find_where exists_where
  find_where-append [] ys = refl
  find_where-append (x ∷ xs) ys = ground (arith, find_where-append xs ys)

  -- the rowcount is positive exactly when a SELECT with the same condition finds a row
  pub count_where_pos : (xs : List A) {x : A} → find_where p xs ≡ some x → 0 < count_where p xs
  unfolding find_where count_where
  count_where_pos [] e = cc
  count_where_pos (y ∷ xs) {x} e = ground (arith, count_where_pos xs {x = x})

  pub count_where_nothing : (xs : List A) → find_where p xs ≡ none → count_where p xs ≡ 0
  unfolding find_where count_where
  count_where_nothing [] e = refl
  count_where_nothing (y ∷ xs) e = ground (arith, count_where_nothing xs)

module _ {ℓ} {A : Type ℓ} (p q : A → Bool) (f : A → A) where
  -- a lookup by a key that the update leaves alone finds the same row, updated or not
  pub find_where-update_where :
      (xs : List A)
      → ((x : A) → q (f x) ≡ q x)
      → find_where q (update_where p f xs)
        ≡ Option.map (λ x. if p x then f x else x) (find_where q xs)
  unfolding find_where update_where
  find_where-update_where [] h = refl
  find_where-update_where (x ∷ xs) h = ground (arith, h x, find_where-update_where xs h)

  pub count_where-update_where :
      (xs : List A)
      → ((x : A) → p x ≡ true → q (f x) ≡ q x)
      → count_where q (update_where p f xs) ≡ count_where q xs
  unfolding count_where update_where
  count_where-update_where [] h = refl
  count_where-update_where (x ∷ xs) h = ground (arith, h x, count_where-update_where xs h)

  -- an update that brings no row under a condition does not raise the number of rows under it
  pub count_where-update_where-le :
      (xs : List A)
      → ((x : A) → p x ≡ true → q (f x) ≡ false)
      → count_where q (update_where p f xs) ≤ count_where q xs
  unfolding count_where update_where
  count_where-update_where-le [] h = omega arith
  count_where-update_where-le (x ∷ xs) h = ground (arith, h x, count_where-update_where-le xs h)

  -- no row is left under a condition that every row loses in the update or did not meet
  pub count_where-update_where_zero :
      (xs : List A)
      → All (λ x. q (if p x then f x else x) ≡ false) xs
      → count_where q (update_where p f xs) ≡ 0
  unfolding count_where update_where
  count_where-update_where_zero [] h = refl
  count_where-update_where_zero (x ∷ xs) h =
      ground (arith, h.0, count_where-update_where_zero xs h.1)

module _ {ℓ} {A : Type ℓ} (p : A → Bool) (f : A → A) where
  -- an UPDATE whose condition no row meets changes nothing
  pub update_where_nothing : (xs : List A) → All (λ x. p x ≡ false) xs → update_where p f xs ≡ xs
  unfolding update_where
  update_where_nothing [] h = refl
  update_where_nothing (x ∷ xs) h = rw (h.0, update_where_nothing xs h.1)

  -- an UPDATE with a rowcount of 0 changes nothing
  pub update_where_unchanged : (xs : List A) → count_where p xs ≡ 0 → update_where p f xs ≡ xs
  unfolding update_where count_where
  update_where_unchanged [] h = refl
  update_where_unchanged (x ∷ xs) h = elim (Bool-cases (p x)) [
    | inl e ↦ ground arith
    | inr e ↦ rw e (ap (λ rest. x ∷ rest) (update_where_unchanged xs (ground arith)))
  ]

module _ {ℓ} {A : Type ℓ} (p : A → Bool) where
  pub count_where_zero : (xs : List A) → All (λ x. p x ≡ false) xs → count_where p xs ≡ 0
  unfolding count_where
  count_where_zero [] h = refl
  count_where_zero (x ∷ xs) h = rw (h.0, count_where_zero xs h.1)

  pub find_where_zero : (xs : List A) → All (λ x. p x ≡ false) xs → find_where p xs ≡ none
  unfolding find_where
  find_where_zero [] h = refl
  find_where_zero (x ∷ xs) h = rw (h.0, find_where_zero xs h.1)

  pub not_found : (xs : List A) → find_where p xs ≡ none → All (λ x. p x ≡ false) xs
  unfolding find_where
  not_found [] h = tt
  not_found (x ∷ xs) h = (ground arith, not_found xs (ground arith))

  -- a DELETE leaves no row that meets its condition, and none to delete
  pub delete_where_holds : (xs : List A) → All (λ x. p x ≡ false) (delete_where p xs)
  unfolding delete_where
  delete_where_holds [] = tt
  delete_where_holds (x ∷ xs) = elim (Bool-cases (p x)) [
    | inl e ↦ rw e (delete_where_holds xs)
    | inr e ↦ rw e (e, delete_where_holds xs)
  ]

  pub delete_where_none : (xs : List A) → All (λ x. p x ≡ false) xs → delete_where p xs ≡ xs
  unfolding delete_where
  delete_where_none [] h = refl
  delete_where_none (x ∷ xs) h = rw (h.0, delete_where_none xs h.1)
