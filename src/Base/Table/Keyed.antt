-- ===== src/Base/Table/Keyed.antt =====
-- A table with a text PRIMARY KEY: what a lookup finds after an INSERT … ON CONFLICT DO UPDATE.
use Prim.Native.String.{String}
use mathlib.Core.Path.{◌≡◌}
use mathlib.Core.Logic.{inl, inr}
use mathlib.Core.List.{List, [], ◌∷◌}
use mathlib.Core.Option
use mathlib.Core.Option.{Option, none, some}
use native.Mathlib.Omega.{arith}
use text.Mathlib.TextEquality.{eq_iff}
use text.Mathlib.TextPositions.{eq_refl}
use realxianyu.Base.Tests.{◌==◌, string_eq, if◌then◌else◌, Bool-cases}
use realxianyu.Base.Table.{update_where, delete_where, find_where, has_key, upsert_by}
use realxianyu.Base.Table.Laws.{find_where-append}

-- DELETE … WHERE key = k' removes what a lookup of `k'` finds and nothing that another key finds.
pub find_where-delete_key {ℓ} :
    {A : Type ℓ} (key : A → String) (k k' : String) (xs : List A)
    → find_where (has_key key k) (delete_where (has_key key k') xs)
      ≡ (if k' == k then none else find_where (has_key key k) xs)
unfolding find_where delete_where
find_where-delete_key key k k' [] = ground arith
find_where-delete_key key k k' (x ∷ xs) =
    ground
      (arith, eq_iff (key x) k, eq_iff (key x) k', eq_iff k' k, find_where-delete_key key k k' xs)

module _ {ℓ} {A : Type ℓ} (key : A → String) (change : A → A) where
  -- UPDATE … WHERE key = k' changes the row of `k'` and no other.
  pub find_where-update_key :
      (k k' : String) (xs : List A)
      → ((x : A) → key (change x) ≡ key x)
      → find_where (has_key key k) (update_where (has_key key k') change xs) ≡ (
          if k' == k
          then Option.map change (find_where (has_key key k) xs)
          else find_where (has_key key k) xs)
  unfolding find_where update_where
  find_where-update_key k k' [] keeps = ground arith
  find_where-update_key k k' (x ∷ xs) keeps = ground (
    arith,
    keeps x,
    eq_iff (key x) k,
    eq_iff (key x) k',
    eq_iff (key (change x)) k,
    eq_iff k' k,
    find_where-update_key k k' xs keeps,
  )

  -- UPDATE … WHERE key = k, and INSERT at the end, seen by a lookup of the same key.
  find_where-upsert_self :
      (fresh : A) (xs : List A)
      → ((x : A) → key (change x) ≡ key x)
      → find_where (has_key key (key fresh)) (upsert_by key fresh change xs)
        ≡ some (Option.get_or (Option.map change (find_where (has_key key (key fresh)) xs)) fresh)
  unfolding upsert_by
  find_where-upsert_self fresh xs keeps = ground (
    arith,
    eq_iff (key fresh) (key fresh),
    find_where-update_key (key fresh) (key fresh) xs keeps,
    find_where-append (has_key key (key fresh)) xs (fresh ∷ []),
  )

module _ {ℓ} {A : Type ℓ} (key : A → String) (fresh : A) (change : A → A) where
  -- The row of the upserted key is the changed old row, or the new row if there was none; every
  -- other key finds what it found before.
  pub find_where-upsert_by :
      (k : String) (xs : List A)
      → ((x : A) → key (change x) ≡ key x)
      → find_where (has_key key k) (upsert_by key fresh change xs) ≡ (
          if key fresh == k
          then some (Option.get_or (Option.map change (find_where (has_key key k) xs)) fresh)
          else find_where (has_key key k) xs)
  unfolding upsert_by
  find_where-upsert_by k xs keeps = elim (Bool-cases (key fresh == k)) [
    | inl e ↦
        rw (← (eq_iff (key fresh) k).0 e, eq_refl (key fresh))
          (find_where-upsert_self key change fresh xs keeps)
    | inr e ↦ ground (
      arith,
      find_where-update_key key change k (key fresh) xs keeps,
      find_where-append (has_key key k) xs (fresh ∷ []),
    )
  ]
