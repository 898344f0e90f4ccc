-- ===== src/VirtualGoods/Callbacks/Oldest.antt =====
-- `claim_callback` of src/modules/virtual_goods/store.py against `claim_callback_lease`.
use mathlib.Core.Path.{fun_ext}
use realxianyu.Base.{
  ℕ, ◌+◌, ◌<◌, ◌≡◌, refl, ap, ◌∙◌, Bool, true, ◌&&◌, Option, none, some, List, [], ◌∷◌, map, String,
  arith, ◌==◌, nat_eq, if◌then◌else◌, if_both, leb, Casing,
}
use realxianyu.Base.Lists.{All, Pairs}
use realxianyu.Base.Table.{update_where, count_where, find_where, select_where}
use realxianyu.Base.Table.Laws.{All-select_where, select_where_holds}
use realxianyu.VirtualGoods.Rows.{Callback, VirtualGoodsStore}
use realxianyu.VirtualGoods.Callbacks.Lease.{
  has_callback_id, is_claimable, same_flag, lease_free, claimer_or_default, lease_to,
  claim_callback_lease, older, oldest, get_callback, claim_found, claim_callback,
}
use realxianyu.VirtualGoods.Callbacks.Invariant.{callback_id, CallbacksValid}
use realxianyu.VirtualGoods.Callbacks.ById.{count_where-found, find_where-update_id}

abbrev OnRow : (Callback → Type 0) → Option Callback → Type 0
OnRow P none = Unit
OnRow P (some r) = P r

OnRow-older :
    (P : Callback → Type 0) (r : Callback) (o : Option Callback) → P r → OnRow P o → P (older r o)
OnRow-older P r none h k = h
OnRow-older P r (some q) h k = if_both P (leb r.created_at q.created_at) h k

-- the oldest of some rows has what all of them have
OnRow-oldest : (P : Callback → Type 0) (rows : List Callback) → All P rows → OnRow P (oldest rows)
unfolding oldest
OnRow-oldest P [] h = tt
OnRow-oldest P (x ∷ rows) h = OnRow-older P x (oldest rows) h.0 (OnRow-oldest P rows h.1)

above-find_where :
    (x : Callback) (rest rows : List Callback)
    → All (λ j. x.id < j) (map callback_id rows)
    → All (λ r. find_where (has_callback_id r.id) rest ≡ some r) rows
    → All (λ r. find_where (has_callback_id r.id) (x ∷ rest) ≡ some r) rows
unfolding find_where
above-find_where x rest [] above h = tt
above-find_where x rest (r ∷ rows) above h =
    (ground (arith, above.0, h.0), above-find_where x rest rows above.1 h.1)

All-both :
    (P Q : Callback → Type 0) (rows : List Callback)
    → All P rows
    → All Q rows
    → All (λ r. P r × Q r) rows
All-both P Q [] h k = tt
All-both P Q (r ∷ rows) h k = ((h.0, k.0), All-both P Q rows h.1 k.1)

-- each row is the one that its id finds
All-find_self :
    (rows : List Callback)
    → Pairs ◌<◌ (map callback_id rows)
    → All (λ r. find_where (has_callback_id r.id) rows ≡ some r) rows
unfolding find_where
All-find_self [] h = tt
All-find_self (x ∷ rows) h =
    (ground arith, above-find_where x rows rows h.0 (All-find_self rows h.1))

module _ (c : Casing) (now later : ℕ) (processed : Bool) (claimer : Option String) where
  -- what is known of the row that the SELECT of `claim_callback` returns
  abbrev IsCandidate : VirtualGoodsStore → Callback → Type 0
  IsCandidate s r =
      (is_claimable now (some processed) r ≡ true)
      × (find_where (has_callback_id r.id) s.callbacks ≡ some r)

  All-candidates :
      (s : VirtualGoodsStore)
      → CallbacksValid s
      → All (IsCandidate s) (select_where (is_claimable now (some processed)) s.callbacks)
  All-candidates s v =
      let p = is_claimable now (some processed) in
      All-both _ _ (select_where p s.callbacks) (select_where_holds p s.callbacks) (
        All-select_where (λ r. find_where (has_callback_id r.id) s.callbacks ≡ some r) p s.callbacks
          (All-find_self s.callbacks v.ids_ascend))

  -- `claim_callback_lease` for the row that was found
  abbrev pub lease_found : VirtualGoodsStore → Option Callback → VirtualGoodsStore × Option Callback
  lease_found s none = (s, none)
  lease_found s (some r) = (
    (claim_callback_lease c now later r.id (some processed) claimer s).0,
    some (lease_to (claimer_or_default c claimer s) now (later + s.callback_lease_ttl_sec) r),
  )

  -- the UPDATE under a condition, and the row of `i` if its rowcount is 1
  abbrev updated_row :
      ℕ → VirtualGoodsStore → (Callback → Bool) → VirtualGoodsStore × Option Callback
  updated_row i s p =
      let leased =
        lease_to (claimer_or_default c claimer s) now (later + s.callback_lease_ttl_sec) in
      let rows = update_where p leased s.callbacks in
      if count_where p s.callbacks == 1
      then (record s { callbacks = rows }, find_where (has_callback_id i) rows)
      else (record s { callbacks = rows }, none)

  reordered :
      (i : ℕ) (r : Callback)
      → (has_callback_id i r
          && r.verify_passed
          && same_flag r.processed processed
          && lease_free now r.claim_expires_at)
        ≡ (has_callback_id i r && is_claimable now (some processed) r)
  reordered i r = ground arith

  claim_found-lease_found :
      (s : VirtualGoodsStore) (o : Option Callback)
      → CallbacksValid s
      → OnRow (IsCandidate s) o
      → claim_found c now later processed claimer s o ≡ lease_found s o
  unfolding claim_found claim_callback_lease get_callback
  claim_found-lease_found s none v h = refl
  claim_found-lease_found s (some r) v (free, found) =
      let p = is_claimable now (some processed) in
      let leased =
        lease_to (claimer_or_default c claimer s) now (later + s.callback_lease_ttl_sec) in
      ap (updated_row r.id s) (fun_ext (reordered r.id))
      ∙ ground (
        arith,
        count_where-found r.id p s.callbacks v.ids_ascend,
        find_where-update_id r.id p leased r.id s.callbacks (λ x. refl),
        free,
        found,
      )

  -- On a valid table, `claim_callback` is `claim_callback_lease` for the oldest callback that may be
  -- claimed: it returns that row under its new lease, and nothing if there is none.
  pub claim_callback-lease_found :
      (s : VirtualGoodsStore)
      → CallbacksValid s
      → claim_callback c now later processed claimer s
        ≡ lease_found s (oldest (select_where (is_claimable now (some processed)) s.callbacks))
  unfolding claim_callback
  claim_callback-lease_found s v =
      let waiting = select_where (is_claimable now (some processed)) s.callbacks in
      claim_found-lease_found s (oldest waiting) v
        (OnRow-oldest (IsCandidate s) waiting (All-candidates s v))
