-- ===== src/VirtualGoods/Callbacks/Leases.antt =====
-- Who may process a callback of src/modules/virtual_goods/store.py, and for how long.
use mathlib.Core.Path.{ap₂}
use realxianyu.Base.{
  ℕ, ◌+◌, ◌<◌, ◌≡◌, refl, ap, Bool, true, false, ◌&&◌, Option, some, String, arith, nat_eq,
  Option-cases, inl, inr, is_some, Casing,
}
use realxianyu.Base.Table.Laws.{update_where_unchanged}
use realxianyu.VirtualGoods.Rows.{Callback, VirtualGoodsStore}
use realxianyu.VirtualGoods.Callbacks.Lease.{
  has_callback_id, is_claimable, claimer_or_default, lease_to, claim_callback_lease, get_callback,
}
use realxianyu.VirtualGoods.Callbacks.Invariant.{
  CallbacksValid, claim_callback_lease-CallbacksValid,
}
use realxianyu.VirtualGoods.Callbacks.ById.{found_is, count_where-found, find_where-update_id}

module _ (c : Casing) (s : VirtualGoodsStore) (v : CallbacksValid s) where
  -- a claim succeeds exactly when the row is claimable
  pub claim_callback_lease-found :
      (now later i : ℕ) (filter : Option Bool) (claimer : Option String)
      → (claim_callback_lease c now later i filter claimer s).1
        ≡ found_is (is_claimable now filter) (get_callback i s)
  unfolding claim_callback_lease get_callback
  claim_callback_lease-found now later i filter claimer =
      ground (arith, count_where-found i (is_claimable now filter) s.callbacks v.ids_ascend)

  -- the row after a successful claim
  pub get_callback-claimed :
      (now later i : ℕ) (filter : Option Bool) (claimer : Option String) {r : Callback}
      → get_callback i s ≡ some r
      → is_claimable now filter r ≡ true
      → get_callback i (claim_callback_lease c now later i filter claimer s).0
        ≡ some (lease_to (claimer_or_default c claimer s) now (later + s.callback_lease_ttl_sec) r)
  unfolding claim_callback_lease get_callback
  get_callback-claimed now later i filter claimer {r} e free =
      let leased =
        lease_to (claimer_or_default c claimer s) now (later + s.callback_lease_ttl_sec) in
      ground (
        arith,
        find_where-update_id i (is_claimable now filter) leased i s.callbacks (λ x. refl),
        e,
        free,
      )

  -- a claim that fails changes nothing
  pub claim_callback_lease_failed :
      (now later i : ℕ) (filter : Option Bool) (claimer : Option String)
      → (claim_callback_lease c now later i filter claimer s).1 ≡ false
      → (claim_callback_lease c now later i filter claimer s).0 ≡ s
  unfolding claim_callback_lease
  claim_callback_lease_failed now later i filter claimer failed =
      ap (λ rows. record s { callbacks = rows })
        (update_where_unchanged (λ r. has_callback_id i r && is_claimable now filter r) _
          s.callbacks
          (ground (
            arith,
            failed,
            count_where-found i (is_claimable now filter) s.callbacks v.ids_ascend,
          )))

module _ (c : Casing) (s : VirtualGoodsStore) (v : CallbacksValid s) where
  refused_while_leased :
      (now later now' later' i : ℕ) (filter filter' : Option Bool)
      (claimer claimer' : Option String)
      → (claim_callback_lease c now later i filter claimer s).1 ≡ true
      → now' < later + s.callback_lease_ttl_sec
      → (let s' = (claim_callback_lease c now later i filter claimer s).0 in
          (claim_callback_lease c now' later' i filter' claimer' s').1 ≡ false)
  refused_while_leased now later now' later' i filter filter' claimer claimer' won live =
      let v' = claim_callback_lease-CallbacksValid c s v now later i filter claimer in
      let found = claim_callback_lease-found c s v now later i filter claimer in
      let s' = (claim_callback_lease c now later i filter claimer s).0 in
      let found' = claim_callback_lease-found c s' v' now' later' i filter' claimer' in
      elim (Option-cases (get_callback i s)) [
        | inl e ↦ ground (arith, found, won, e)
        | inr (r, e) ↦
            let free : is_claimable now filter r ≡ true = ground (arith, found, won, e) in
            ground (arith, found', get_callback-claimed c s v now later i filter claimer e free)
      ]

  -- Once a claim of a callback of a valid table has succeeded, every claim of it by anyone fails and
  -- changes nothing, until the lease has expired.
  pub claim_callback_lease-exclusive :
      (now later now' later' i : ℕ) (filter filter' : Option Bool)
      (claimer claimer' : Option String)
      → (claim_callback_lease c now later i filter claimer s).1 ≡ true
      → now' < later + s.callback_lease_ttl_sec
      → (let s' = (claim_callback_lease c now later i filter claimer s).0 in
          claim_callback_lease c now' later' i filter' claimer' s' ≡ (s', false))
  claim_callback_lease-exclusive now later now' later' i filter filter' claimer claimer' won live =
      let refused =
        refused_while_leased now later now' later' i filter filter' claimer claimer' won live in
      let v' = claim_callback_lease-CallbacksValid c s v now later i filter claimer in
      let s' = (claim_callback_lease c now later i filter claimer s).0 in
      ap₂ (λ t b. (t, b))
        (claim_callback_lease_failed c s' v' now' later' i filter' claimer' refused) refused

-- a callback that was claimed is there
pub claimed-is_some :
    (c : Casing) (now later i : ℕ) (filter : Option Bool) (claimer : Option String)
    (s : VirtualGoodsStore)
    → CallbacksValid s
    → (claim_callback_lease c now later i filter claimer s).1 ≡ true
    → is_some (get_callback i (claim_callback_lease c now later i filter claimer s).0) ≡ true
claimed-is_some c now later i filter claimer s v won =
    let found = claim_callback_lease-found c s v now later i filter claimer in
    elim (Option-cases (get_callback i s)) [
      | inl e ↦ absurd (ground (arith, found, won, e))
      | inr (r, e) ↦
          let free : is_claimable now filter r ≡ true = ground (arith, found, won, e) in
          ap is_some (get_callback-claimed c s v now later i filter claimer e free)
    ]
