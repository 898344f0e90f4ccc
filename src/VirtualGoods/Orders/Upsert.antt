-- ===== src/VirtualGoods/Orders/Upsert.antt =====
-- What `upsert_order` of src/modules/virtual_goods/store.py leaves in the order table.
use mathlib.Core.Option
use realxianyu.Base.{
  ℕ, ◌≡◌, refl, sym, subst, ◌∙◌, Bool-cases, Option, none, some, String, eq_iff, eq_refl, ◌==◌,
  string_eq, is_some, if◌then◌else◌, inl, inr, if_both, or_text, Casing, dict_get,
}
use realxianyu.Base.Result.{Error, Result, ok, raised}
use realxianyu.Base.Table.{find_where, upsert_by, has_key}
use realxianyu.Base.Table.Laws.{find_where_holds}
use realxianyu.Base.Table.Keyed.{find_where-upsert_by}
use realxianyu.VirtualGoods.Status.{OrderStatus, normalize_order_status}
use realxianyu.VirtualGoods.Rows.{FulfillmentStatus, CallbackStatus, Order, VirtualGoodsStore}
use realxianyu.VirtualGoods.Orders.{
  order_key, fulfillment_values, callback_status_values, OrderUpdate, supply_taken, coalesce,
  inserted_order, updated_order, write_order, check_callback_status, check_fulfillment,
  check_order_status, upsert_order, get_order,
}

module _ (c : Casing) (now : ℕ) (u : OrderUpdate) (s : VirtualGoodsStore) where
  -- the store with the row written
  abbrev pub with_order : OrderStatus → FulfillmentStatus → CallbackStatus → VirtualGoodsStore
  with_order st f cb = record s {
    orders =
        upsert_by order_key (inserted_order now u st f cb) (updated_order now u st f cb) s.orders;
  }

  abbrev pub Outcome : Type 0
  Outcome = VirtualGoodsStore × Result (Option Order)

  write_order-cases :
      (P : Outcome → Type 0) (st : OrderStatus) (f : FulfillmentStatus) (cb : CallbackStatus)
      → ((e : Error) → P (s, raised e))
      → P (
        with_order st f cb,
        ok (find_where (has_key order_key u.xianyu_order_id) (with_order st f cb).orders),
      )
      → P (write_order now u st f cb s)
  unfolding write_order
  write_order-cases P st f cb fails saved =
      if_both P (supply_taken u.xianyu_order_id u.supply_order_no s.orders) (fails _) saved

  -- what is left to show for a row with this status
  abbrev Saved : (Outcome → Type 0) → OrderStatus → Type 0
  Saved P st =
      (f : FulfillmentStatus) (cb : CallbackStatus)
      → dict_get (c.lower (or_text u.fulfillment_status "pending")) fulfillment_values ≡ some f
      → dict_get (c.lower (or_text u.callback_status "none")) callback_status_values ≡ some cb
      → P (
        with_order st f cb,
        ok (find_where (has_key order_key u.xianyu_order_id) (with_order st f cb).orders),
      )

  check_callback_status-cases :
      (P : Outcome → Type 0) (st : OrderStatus) (f : FulfillmentStatus) (o : Option CallbackStatus)
      → ((e : Error) → P (s, raised e))
      → dict_get (c.lower (or_text u.fulfillment_status "pending")) fulfillment_values ≡ some f
      → dict_get (c.lower (or_text u.callback_status "none")) callback_status_values ≡ o
      → Saved P st
      → P (check_callback_status now u st f o s)
  check_callback_status-cases P st f none fails ef ecb saved = fails _
  check_callback_status-cases P st f (some cb) fails ef ecb saved =
      write_order-cases P st f cb fails (saved f cb ef ecb)

  check_fulfillment-cases :
      (P : Outcome → Type 0) (st : OrderStatus) (o : Option FulfillmentStatus)
      → ((e : Error) → P (s, raised e))
      → dict_get (c.lower (or_text u.fulfillment_status "pending")) fulfillment_values ≡ o
      → Saved P st
      → P (check_fulfillment c now u st o s)
  check_fulfillment-cases P st none fails ef saved = fails _
  check_fulfillment-cases P st (some f) fails ef saved =
      check_callback_status-cases P st f
        (dict_get (c.lower (or_text u.callback_status "none")) callback_status_values) fails ef refl
        saved

  check_order_status-cases :
      (P : Outcome → Type 0) (r : Result OrderStatus)
      → ((e : Error) → P (s, raised e))
      → ((st : OrderStatus) → r ≡ ok st → Saved P st)
      → P (check_order_status c now u r s)
  check_order_status-cases P (raised e) fails saved = fails e
  check_order_status-cases P (ok st) fails saved =
      check_fulfillment-cases P st
        (dict_get (c.lower (or_text u.fulfillment_status "pending")) fulfillment_values) fails refl
        (saved st refl)

  -- `upsert_order` raises an error and changes nothing, or writes the row with the normalised status.
  pub upsert_order-cases :
      (P : Outcome → Type 0)
      → ((e : Error) → P (s, raised e))
      → ((st : OrderStatus) → normalize_order_status c u.order_status ≡ ok st → Saved P st)
      → P (upsert_order c now u s)
  unfolding upsert_order
  upsert_order-cases P fails saved =
      check_order_status-cases P (normalize_order_status c u.order_status) fails saved

  -- the order of `k` after the row is written
  pub get_order-with_order :
      (k : String) (st : OrderStatus) (f : FulfillmentStatus) (cb : CallbackStatus)
      → get_order k (with_order st f cb) ≡ (
          if u.xianyu_order_id == k
          then some (
              Option.get_or
                (Option.map (updated_order now u st f cb) (get_order k s))
                (inserted_order now u st f cb))
          else get_order k s)
  unfolding get_order
  get_order-with_order k st f cb =
      find_where-upsert_by order_key (inserted_order now u st f cb) (updated_order now u st f cb) k
        s.orders (λ o. refl)

-- what a write leaves of the row that stood under the id
abbrev pub supply_after : Option String → Option Order → Option String
supply_after given none = given
supply_after given (some o) = if is_some given then given else o.supply_order_no

abbrev pub created_after : ℕ → Option Order → ℕ
created_after now none = now
created_after now (some o) = o.created_at

-- the row that an update of the row `old` is to leave, column by column
pub record Written (c : Casing) (now : ℕ) (u : OrderUpdate) (old : Option Order) (o : Order)
    : Type 0 where
  pub written_id : o.xianyu_order_id ≡ u.xianyu_order_id
  pub written_product : o.xianyu_product_id ≡ u.xianyu_product_id
  pub written_supply : o.supply_order_no ≡ supply_after u.supply_order_no old
  pub written_session : o.session_id ≡ u.session_id
  pub written_status : normalize_order_status c u.order_status ≡ ok o.order_status
  pub written_fulfillment :
      dict_get (c.lower (or_text u.fulfillment_status "pending")) fulfillment_values
      ≡ some o.fulfillment_status
  pub written_callback :
      dict_get (c.lower (or_text u.callback_status "none")) callback_status_values
      ≡ some o.callback_status
  pub written_takeover : o.manual_takeover ≡ u.manual_takeover
  pub written_error : o.last_error ≡ u.last_error
  pub written_creation : o.created_at ≡ created_after now old
  pub written_update : o.updated_at ≡ now

supply_after-coalesce :
    (a : Option String) (o : Order) → coalesce a o.supply_order_no ≡ supply_after a (some o)
supply_after-coalesce none o = refl
supply_after-coalesce (some n) o = refl

module _ (c : Casing) (now : ℕ) (u : OrderUpdate) (s : VirtualGoodsStore) where
  -- what `upsert_order` has done when it ends
  abbrev pub Upserted : String → VirtualGoodsStore × Result (Option Order) → Type 0
  Upserted k (s', raised e) = s' ≡ s
  Upserted k (s', ok none) = ⊥
  Upserted k (s', ok (some o)) =
      Written c now u (get_order u.xianyu_order_id s) o
      × (get_order k s' ≡ (if u.xianyu_order_id == k then some o else get_order k s))

  merged-Written :
      (st : OrderStatus) (f : FulfillmentStatus) (cb : CallbackStatus) (old : Option Order)
      → normalize_order_status c u.order_status ≡ ok st
      → dict_get (c.lower (or_text u.fulfillment_status "pending")) fulfillment_values ≡ some f
      → dict_get (c.lower (or_text u.callback_status "none")) callback_status_values ≡ some cb
      → get_order u.xianyu_order_id s ≡ old
      → Written c now u old (
          Option.get_or
            (Option.map (updated_order now u st f cb) old)
            (inserted_order now u st f cb))
  unfolding get_order
  merged-Written st f cb none es ef ecb found = record {
    written_id = refl;
    written_product = refl;
    written_supply = refl;
    written_session = refl;
    written_status = es;
    written_fulfillment = ef;
    written_callback = ecb;
    written_takeover = refl;
    written_error = refl;
    written_creation = refl;
    written_update = refl;
  }
  merged-Written st f cb (some o) es ef ecb found = record {
    written_id =
        (eq_iff o.xianyu_order_id u.xianyu_order_id).0
          (find_where_holds (has_key order_key u.xianyu_order_id) s.orders found);
    written_product = refl;
    written_supply = supply_after-coalesce u.supply_order_no o;
    written_session = refl;
    written_status = es;
    written_fulfillment = ef;
    written_callback = ecb;
    written_takeover = refl;
    written_error = refl;
    written_creation = refl;
    written_update = refl;
  }

  -- `upsert_order` either raises an error and changes nothing, or returns the row that `get_order`
  -- then finds under the order's id, and what every other id finds is unchanged. That row has the
  -- given values, its statuses those that the given texts are normalised to, and the time of the
  -- call as its update; an order that was there keeps the time of its creation, and its supply
  -- order number where none is given.
  pub upsert_order-get_order : (k : String) → Upserted k (upsert_order c now u s)
  unfolding get_order
  upsert_order-get_order k =
      upsert_order-cases c now u s (Upserted k) (λ e. refl)
        (λ st es f cb ef ecb.
          let row =
            Option.get_or (Option.map (updated_order now u st f cb) (get_order u.xianyu_order_id s))
              (inserted_order now u st f cb) in
          let own : get_order u.xianyu_order_id (with_order c now u s st f cb) ≡ some row =
            rw (get_order-with_order c now u s u.xianyu_order_id st f cb, eq_refl u.xianyu_order_id)
              refl in
          subst (λ o. Upserted k (with_order c now u s st f cb, ok o)) (sym own)
            (
              merged-Written st f cb (get_order u.xianyu_order_id s) es ef ecb refl,
              elim (Bool-cases (u.xianyu_order_id == k)) [
                | inl e ↦ rw e (
                    subst (λ key. get_order key (with_order c now u s st f cb) ≡ some row)
                      ((eq_iff u.xianyu_order_id k).0 e) own)
                | inr e ↦ rw e (get_order-with_order c now u s k st f cb ∙ rw e refl)
              ],
            ))
