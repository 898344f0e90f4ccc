-- ===== src/Base/Table.antt =====
-- A SQL table is the list of its rows in the order of insertion, which is the order of an
-- AUTOINCREMENT id. One function for each kind of statement that the stores execute:
-- UPDATE … WHERE, its rowcount, DELETE … WHERE, SELECT … WHERE, and its first row (fetchone).
pub mod Laws
pub mod Keyed
pub mod Columns
pub mod Exists
use Prim.Native.Nat.{ℕ, suc}
use Prim.Native.String.{String}
use mathlib.Core.Bool.{Bool}
use mathlib.Core.List.{List, [], ◌∷◌, ◌++◌}
use mathlib.Core.Option.{Option, none, some}
use realxianyu.Base.Tests.{◌==◌, string_eq, if◌then◌else◌, is_some}

module _ {ℓ} {A : Type ℓ} (p : A → Bool) where
  unfoldable pub update_where : (A → A) → List A → List A
  update_where f [] = []
  update_where f (x ∷ xs) = (if p x then f x else x) ∷ update_where f xs

  unfoldable pub count_where : List A → ℕ
  count_where [] = 0
  count_where (x ∷ xs) = let n = count_where xs in if p x then suc n else n

  unfoldable pub delete_where : List A → List A
  delete_where [] = []
  delete_where (x ∷ xs) = let rest = delete_where xs in if p x then rest else x ∷ rest

  unfoldable pub select_where : List A → List A
  select_where [] = []
  select_where (x ∷ xs) = let rest = select_where xs in if p x then x ∷ rest else rest

  unfoldable pub find_where : List A → Option A
  find_where [] = none
  find_where (x ∷ xs) = let rest = find_where xs in if p x then some x else rest

  -- the first row of a SELECT … ORDER BY id DESC
  unfoldable pub find_last_where : List A → Option A
  find_last_where [] = none
  find_last_where (x ∷ xs) =
      let rest = find_last_where xs in if is_some rest then rest else if p x then some x else none

  -- whether a SELECT finds a row
  unfoldable pub exists_where : List A → Bool
  unfolding find_where
  exists_where xs = is_some (find_where xs)

-- a table with a text PRIMARY KEY
module _ {ℓ} {A : Type ℓ} (key : A → String) where
  abbrev pub has_key : String → A → Bool
  has_key k x = key x == k

  -- INSERT … ON CONFLICT(key) DO UPDATE
  unfoldable pub upsert_by : A → (A → A) → List A → List A
  unfolding update_where find_where exists_where
  upsert_by fresh change xs =
      if exists_where (has_key (key fresh)) xs
      then update_where (has_key (key fresh)) change xs
      else xs ++ fresh ∷ []
