-- ===== src/VirtualGoods/Callbacks/ById.antt =====
-- The row of an id in the callback table of src/modules/virtual_goods/store.py: what an UPDATE of one
-- id does to it, and its rowcount.
use mathlib.Core.Option
use realxianyu.Base.{
  ℕ, ◌<◌, ◌≡◌, refl, Bool, false, ◌&&◌, Option, none, some, List, [], ◌∷◌, map, arith, ◌==◌, nat_eq,
  nat_beq_iff, subst, if◌then◌else◌, Bool-cases, Option-cases, inl, inr,
}
use realxianyu.Base.Lists.{All, Pairs}
use realxianyu.Base.Table.{update_where, count_where, find_where}
use realxianyu.Base.Table.Laws.{find_where-update_where, find_where_holds}
use realxianyu.VirtualGoods.Rows.{Callback}
use realxianyu.VirtualGoods.Callbacks.Lease.{has_callback_id}
use realxianyu.VirtualGoods.Callbacks.Invariant.{callback_id}

-- whether the row that was found meets a condition
abbrev pub found_is : (Callback → Bool) → Option Callback → Bool
found_is p none = false
found_is p (some r) = p r

module _ (i : ℕ) (p : Callback → Bool) where
  above-count_where :
      (rows : List Callback)
      → All (λ j. i < j) (map callback_id rows)
      → count_where (λ r. has_callback_id i r && p r) rows ≡ 0
  unfolding count_where
  above-count_where [] h = refl
  above-count_where (r ∷ rows) h = ground (arith, h.0, above-count_where rows h.1)

  -- the rowcount of an UPDATE … WHERE id = i AND p
  pub count_where-found :
      (rows : List Callback)
      → Pairs ◌<◌ (map callback_id rows)
      → count_where (λ r. has_callback_id i r && p r) rows
        ≡ (if found_is p (find_where (has_callback_id i) rows) then 1 else 0)
  unfolding count_where find_where
  count_where-found [] h = refl
  count_where-found (r ∷ rows) h = elim (Bool-cases (has_callback_id i r)) [
    | inl e ↦
        let later =
          subst (λ k. All (λ j. k < j) (map callback_id rows)) ((nat_beq_iff r.id i).0 e) h.0 in
        rw e (ground (arith, above-count_where rows later))
    | inr e ↦ rw e (count_where-found rows h.1)
  ]

  -- the row of `j` after it
  pub find_where-update_id :
      (f : Callback → Callback) (j : ℕ) (rows : List Callback)
      → ((r : Callback) → callback_id (f r) ≡ callback_id r)
      → find_where (has_callback_id j) (update_where (λ r. has_callback_id i r && p r) f rows) ≡ (
          if i == j
          then Option.map (λ r. if p r then f r else r) (find_where (has_callback_id j) rows)
          else find_where (has_callback_id j) rows)
  find_where-update_id f j rows keeps =
      let updated =
        find_where-update_where (λ r. has_callback_id i r && p r) (has_callback_id j) f rows
          (λ r. rw (keeps r) refl) in
      elim (Option-cases (find_where (has_callback_id j) rows)) [
        | inl e ↦ ground (arith, updated, e)
        | inr (r, e) ↦ ground (arith, updated, e, find_where_holds (has_callback_id j) rows e)
      ]
