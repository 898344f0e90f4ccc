-- ===== src/VirtualGoods/Process/OrderSteps.antt =====
-- What `process` of src/modules/virtual_goods/callbacks.py may do to an order.
use mathlib.Core.Option
use realxianyu.Base.{
  ℕ, ◌≡◌, refl, sym, ap, ◌∙◌, subst, ◌⊎◌, inl, inr, Bool, false, not, ◌&&◌, Option, none, some,
  String, arith, eq_iff, ◌==◌, string_eq, if_both, if_both_with, is_some,
}
use realxianyu.Base.Result.{ok, raised}
use realxianyu.VirtualGoods.Status.{
  OrderStatus, pending_payment, paid_waiting_delivery, delivered, delivery_failed, refund_pending,
  refunded, closed, status_word, status_text, normalize_order_status,
}
use realxianyu.VirtualGoods.Status.Words.{KeepsWords, normalize_order_status-status_word}
use realxianyu.VirtualGoods.Rows.{FulfillmentStatus, CallbackStatus, Order, VirtualGoodsStore}
use realxianyu.VirtualGoods.Orders.{get_order, coalesce, updated_order, inserted_order, order_key}
use realxianyu.Base.Table.{find_where, exists_where, has_key}
use realxianyu.VirtualGoods.Orders.Upsert.{with_order, get_order-with_order}
use realxianyu.VirtualGoods.Callbacks.{
  NewCallback, insert_row, insert_callback, conflicts, event_key,
}
use realxianyu.VirtualGoods.Callbacks.Lease.{
  claim_callback_lease, get_callback, mark_callback_processed,
}
use realxianyu.VirtualGoods.Callbacks.Invariant.{SameTables, insert_callback-keeps}
use realxianyu.VirtualGoods.Process.Target.{regresses, is_regression_blocked}
use realxianyu.VirtualGoods.Process.Cases.{
  Cleared, settled_store, notify_failed-SameTables, apply_claimed-cases, process-cases,
}
use realxianyu.VirtualGoods.Process.{
  process, claim_and_apply, claimed_of, release_on_error, apply_claimed, order_update,
}
use realxianyu.VirtualGoods.Process.Types.{Env, Times, Request, Reply, Claimed, taken_over}

-- how a callback may change an order
pub record Changed (o o' : Order) : Type 0 where
  pub takeover_off : o.manual_takeover ≡ false
  pub no_regression : regresses o.order_status o'.order_status false ≡ false
  pub same_creation : o'.created_at ≡ o.created_at
  pub supply_kept : is_some o.supply_order_no && not (is_some o'.supply_order_no) ≡ false

-- from what a lookup found before to what it finds after
abbrev pub OrderStep : Option Order → Option Order → Type 0
OrderStep none found = Unit
OrderStep (some o) none = ⊥
OrderStep (some o) (some o') = (o' ≡ o) ⊎ Changed o o'

OrderStep-refl : (found : Option Order) → OrderStep found found
OrderStep-refl none = tt
OrderStep-refl (some o) = inl refl

coalesce-kept : (a b : Option String) → (is_some b && not (is_some (coalesce a b))) ≡ false
coalesce-kept none b = ground arith
coalesce-kept (some x) b = ground arith

-- a move that is allowed with a callback about the order is allowed with any
regresses-false :
    (a b : OrderStatus) (e : Bool) → regresses a b e ≡ false → regresses a b false ≡ false
regresses-false pending_payment b e h = refl
regresses-false paid_waiting_delivery b e h = refl
regresses-false delivered b e h = h
regresses-false delivery_failed b e h = refl
regresses-false refund_pending b e h = refl
regresses-false refunded b e h = h
regresses-false closed b e h = refl

-- what an upsert of the order that was looked up finds
upserted-OrderStep :
    (env : Env) (t : Times) (k : Claimed) (next : OrderStatus) (f : FulfillmentStatus)
    (cb : CallbackStatus) (found : Option Order)
    → taken_over found ≡ false
    → is_regression_blocked env.casing found next k.event_kind ≡ false
    → (let u = order_update env t k next found in
        OrderStep found (
          some (
            Option.get_or
              (Option.map (updated_order t.order_at u next f cb) found)
              (inserted_order t.order_at u next f cb))))
upserted-OrderStep env t k next f cb none free forward = tt
upserted-OrderStep env t k next f cb (some o) free forward = inr (record {
  takeover_off = free;
  no_regression = regresses-false o.order_status next _ forward;
  same_creation = refl;
  supply_kept = coalesce-kept _ o.supply_order_no;
})

module _ (env : Env) (t : Times) (keeps : KeepsWords env.casing) where
  -- the order of the callback itself
  own_order-OrderStep :
      (k : Claimed) (s : VirtualGoodsStore) (next : OrderStatus) (f : FulfillmentStatus)
      (cb : CallbackStatus) (oid : String)
      → Cleared env t k next s
      → OrderStep (get_order oid s) (
          get_order oid (
            with_order env.casing t.order_at
              (order_update env t k next (get_order k.order_id s))
              s
              next
              f
              cb))
  own_order-OrderStep k s next f cb oid clear =
      let u = order_update env t k next (get_order k.order_id s) in
      let found = get_order-with_order env.casing t.order_at u s oid next f cb in
      rw found (
        if_both_with (OrderStep (get_order oid s)) (k.order_id == oid)
          (λ same.
            subst
              (λ key. OrderStep (get_order key s) (
                some (
                  Option.get_or
                    (Option.map (updated_order t.order_at u next f cb) (get_order key s))
                    (inserted_order t.order_at u next f cb))))
              ((eq_iff k.order_id oid).0 same)
              (upserted-OrderStep env t k next f cb (get_order k.order_id s) clear.not_taken_over
                clear.no_regression))
          (λ other. OrderStep-refl (get_order oid s)))

  -- neither the notification nor the mark of the callback touches an order
  get_order-settled_store :
      (k : Claimed) (s : VirtualGoodsStore) (next st : OrderStatus) (f : FulfillmentStatus)
      (cb : CallbackStatus) (oid : String)
      → get_order oid (settled_store env t k next st f cb s)
        ≡ get_order oid (
            with_order env.casing t.order_at
              (order_update env t k next (get_order k.order_id s))
              s
              st
              f
              cb)
  unfolding get_order mark_callback_processed
  get_order-settled_store k s next st f cb oid =
      ap (λ rows. find_where (has_key order_key oid) rows)
        (SameTables.same_orders (notify_failed-SameTables env t k next _))

  settled_store-OrderStep :
      (k : Claimed) (s : VirtualGoodsStore) (next st : OrderStatus) (f : FulfillmentStatus)
      (cb : CallbackStatus) (oid : String)
      → Cleared env t k next s
      → normalize_order_status env.casing (status_text (status_word next)) ≡ ok st
      → OrderStep (get_order oid s) (get_order oid (settled_store env t k next st f cb s))
  settled_store-OrderStep k s next st f cb oid clear e =
      let read : normalize_order_status env.casing (status_text (status_word next)) ≡ ok next =
        normalize_order_status-status_word env.casing next keeps in
      let same : next ≡ st = cc in
      rw (get_order-settled_store k s next st f cb oid) (
        subst
          (λ st'. OrderStep (get_order oid s) (
            get_order oid (
              with_order env.casing t.order_at (order_update env t k next (get_order k.order_id s))
                s st' f cb)))
          same (own_order-OrderStep k s next f cb oid clear))

  release_on_error-orders :
      (oid : String) (k : Claimed) (r : Reply)
      → get_order oid (release_on_error env t k r).0 ≡ get_order oid r.0
  unfolding get_order mark_callback_processed
  release_on_error-orders oid k (s, ok a) = refl
  release_on_error-orders oid k (s, raised e) = refl

  apply_claimed-OrderStep :
      (oid : String) (k : Claimed) (s : VirtualGoodsStore)
      → OrderStep (get_order oid s) (get_order oid (apply_claimed env t k s).0)
  unfolding get_order mark_callback_processed
  apply_claimed-OrderStep oid k s =
      apply_claimed-cases env t k s (λ r. OrderStep (get_order oid s) (get_order oid r.0))
        (λ reason a _. OrderStep-refl (get_order oid s)) (λ e. OrderStep-refl (get_order oid s))
        (λ next st f cb clear e. settled_store-OrderStep k s next st f cb oid clear e)

  claim_and_apply-OrderStep :
      (oid kind : String) (i : ℕ) (inserted : Bool) (s : VirtualGoodsStore)
      → OrderStep (get_order oid s) (get_order oid (claim_and_apply env t kind i inserted s).0)
  unfolding claim_and_apply get_order claim_callback_lease
  claim_and_apply-OrderStep oid kind i inserted s =
      let s' = (claim_callback_lease env.casing t.claim_at t.lease_at i (some false) none s).0 in
      let k = claimed_of env t i kind (not inserted) (get_callback i s') in
      if_both (λ (r : Reply). OrderStep (get_order oid s) (get_order oid r.0))
        (claim_callback_lease env.casing t.claim_at t.lease_at i (some false) none s).1
        (subst (OrderStep (get_order oid s'))
          (sym (release_on_error-orders oid k (apply_claimed env t k s')))
          (apply_claimed-OrderStep oid k s'))
        (OrderStep-refl (get_order oid s))

  insert_callback-orders :
      (oid : String) (a : NewCallback) (s : VirtualGoodsStore)
      → get_order oid (insert_callback env.casing env.upper t.insert_at a s).0 ≡ get_order oid s
  unfolding get_order insert_row
  insert_callback-orders oid a s =
      insert_callback-keeps env.casing env.upper t.insert_at a s
        (λ s'. get_order oid s' ≡ get_order oid s)
        (λ s' t' e h.
          ap (λ rows. find_where (has_key order_key oid) rows) (SameTables.same_orders e) ∙ h)
        refl
        (if_both (λ (r : VirtualGoodsStore × ℕ × Bool). get_order oid r.0 ≡ get_order oid s)
          (exists_where
            (conflicts (event_key env.casing a.external_event_id)
              (event_key env.casing a.dedupe_key))
            s.callbacks)
          refl refl)

  -- Where strip and lower leave the status words alone, a call of `process`, whatever it is sent and
  -- however it ends, loses no order, and leaves each order as it is or changes it so: it was not
  -- under manual takeover, it does not go back from delivered to paid or from refunded to delivered,
  -- and it keeps its creation time and a supply order number.
  pub process-OrderStep :
      (req : Request) (oid : String) (s : VirtualGoodsStore)
      → OrderStep (get_order oid s) (get_order oid (process env t req s).0)
  process-OrderStep req oid s =
      let same = λ (s' : VirtualGoodsStore) (e : get_order oid s' ≡ get_order oid s).
        subst (OrderStep (get_order oid s)) (sym e) (OrderStep-refl (get_order oid s)) in
      process-cases env t req s (λ r. OrderStep (get_order oid s) (get_order oid r.0))
        (λ s'. get_order oid s' ≡ get_order oid s) refl (λ a. insert_callback-orders oid a s)
        (λ s' e h. same s' h) (λ s' a h _. same s' h)
        (λ s' kind i inserted h.
          subst
            (λ found. OrderStep found (get_order oid (claim_and_apply env t kind i inserted s').0))
            h (claim_and_apply-OrderStep oid kind i inserted s'))
