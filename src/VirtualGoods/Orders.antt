-- ===== src/VirtualGoods/Orders.antt =====
-- The order table of `VirtualGoodsStore` in src/modules/virtual_goods/store.py. `now` is the time
-- that a method reads. A call without a connection opens one and calls itself with the values that
-- it has normalised, which changes none of them.
pub mod Upsert
use realxianyu.Base.{
  ℕ, suc, Bool, true, false, not, ◌&&◌, Option, none, some, List, [], ◌∷◌, ◌++◌, String, ltb, ◌==◌,
  string_eq, if◌then◌else◌, text_append, Casing, or_text, dict_get,
}
use realxianyu.Base.Result.{Result, ok, raised, value_error, integrity_error}
use realxianyu.Base.Table.{update_where, count_where, find_where, exists_where, has_key, upsert_by}
use realxianyu.VirtualGoods.Status.{OrderStatus, RawStatus, normalize_order_status}
use realxianyu.VirtualGoods.Rows.{
  Payload, FulfillmentStatus, pending, delivering, fulfilled, failed, manual, CallbackStatus,
  no_callback, callback_received, callback_processed, callback_failed, Order, TakeoverEvent,
  OrderEvent, VirtualGoodsStore,
}

abbrev pub order_key : Order → String
order_key o = o.xianyu_order_id

abbrev pub fulfillment_values : List (String × FulfillmentStatus)
fulfillment_values =
    ("pending", pending)
    ∷ ("delivering", delivering)
    ∷ ("fulfilled", fulfilled)
    ∷ ("failed", failed)
    ∷ ("manual", manual)
    ∷ []

abbrev pub callback_status_values : List (String × CallbackStatus)
callback_status_values =
    ("none", no_callback)
    ∷ ("received", callback_received)
    ∷ ("processed", callback_processed)
    ∷ ("failed", callback_failed)
    ∷ []

-- the arguments of `upsert_order`, with their defaults filled in
pub record OrderUpdate : Type 0 where
  pub xianyu_order_id : String
  pub xianyu_product_id : String
  pub supply_order_no : Option String
  pub session_id : String
  pub order_status : RawStatus
  pub fulfillment_status : String
  pub callback_status : String
  pub manual_takeover : Bool
  pub last_error : Option String

abbrev pub has_supply_no : String → Option String → Bool
has_supply_no n none = false
has_supply_no n (some m) = m == n

-- the UNIQUE supply_order_no stands in the row of another order
abbrev pub supply_taken : String → Option String → List Order → Bool
supply_taken oid none orders = false
supply_taken oid (some n) orders =
    exists_where (λ o. not (has_key order_key oid o) && has_supply_no n o.supply_order_no) orders

-- COALESCE(a, b)
abbrev pub coalesce : Option String → Option String → Option String
coalesce none b = b
coalesce (some a) b = some a

abbrev pub inserted_order :
    ℕ → OrderUpdate → OrderStatus → FulfillmentStatus → CallbackStatus → Order
inserted_order now u st f cb = record {
  xianyu_order_id = u.xianyu_order_id;
  xianyu_product_id = u.xianyu_product_id;
  supply_order_no = u.supply_order_no;
  session_id = u.session_id;
  order_status = st;
  fulfillment_status = f;
  callback_status = cb;
  manual_takeover = u.manual_takeover;
  last_error = u.last_error;
  created_at = now;
  updated_at = now;
}

-- ON CONFLICT(xianyu_order_id) DO UPDATE SET …
abbrev pub updated_order :
    ℕ → OrderUpdate → OrderStatus → FulfillmentStatus → CallbackStatus → Order → Order
updated_order now u st f cb o = record (inserted_order now u st f cb) {
  xianyu_order_id = o.xianyu_order_id;
  supply_order_no = coalesce u.supply_order_no o.supply_order_no;
  created_at = o.created_at;
}

unfoldable pub write_order :
    ℕ
    → OrderUpdate
    → OrderStatus
    → FulfillmentStatus
    → CallbackStatus
    → VirtualGoodsStore
    → VirtualGoodsStore × Result (Option Order)
unfolding upsert_by find_where exists_where
write_order now u st f cb s =
    let orders =
      upsert_by order_key (inserted_order now u st f cb) (updated_order now u st f cb) s.orders in
    if supply_taken u.xianyu_order_id u.supply_order_no s.orders
    then (
      s,
      raised (integrity_error "UNIQUE constraint failed: virtual_goods_orders.supply_order_no"),
    )
    else (
      record s { orders = orders },
      ok (find_where (has_key order_key u.xianyu_order_id) orders),
    )

abbrev pub check_callback_status :
    ℕ
    → OrderUpdate
    → OrderStatus
    → FulfillmentStatus
    → Option CallbackStatus
    → VirtualGoodsStore
    → VirtualGoodsStore × Result (Option Order)
check_callback_status now u st f none s =
    (s, raised (value_error (text_append "Unsupported callback status: " u.callback_status)))
check_callback_status now u st f (some cb) s = write_order now u st f cb s

abbrev pub check_fulfillment :
    Casing
    → ℕ
    → OrderUpdate
    → OrderStatus
    → Option FulfillmentStatus
    → VirtualGoodsStore
    → VirtualGoodsStore × Result (Option Order)
check_fulfillment c now u st none s =
    (s, raised (value_error (text_append "Unsupported fulfillment status: " u.fulfillment_status)))
check_fulfillment c now u st (some f) s =
    check_callback_status now u st f
      (dict_get (c.lower (or_text u.callback_status "none")) callback_status_values) s

abbrev pub check_order_status :
    Casing
    → ℕ
    → OrderUpdate
    → Result OrderStatus
    → VirtualGoodsStore
    → VirtualGoodsStore × Result (Option Order)
check_order_status c now u (raised e) s = (s, raised e)
check_order_status c now u (ok st) s =
    check_fulfillment c now u st
      (dict_get (c.lower (or_text u.fulfillment_status "pending")) fulfillment_values) s

unfoldable pub upsert_order :
    Casing → ℕ → OrderUpdate → VirtualGoodsStore → VirtualGoodsStore × Result (Option Order)
unfolding write_order dict_get normalize_order_status
upsert_order c now u s = check_order_status c now u (normalize_order_status c u.order_status) s

unfoldable pub get_order : String → VirtualGoodsStore → Option Order
unfolding find_where
get_order oid s = find_where (has_key order_key oid) s.orders

abbrev pub record_manual_takeover_event :
    ℕ
    → String
    → Bool
    → Option String
    → Option String
    → Payload
    → VirtualGoodsStore
    → VirtualGoodsStore
record_manual_takeover_event now oid enabled reason operator detail s =
    let event : TakeoverEvent = record {
      xianyu_order_id = oid;
      enabled = enabled;
      reason = reason;
      operator = operator;
      detail = detail;
      created_at = now;
    } in
    record s { takeover_events = s.takeover_events ++ event ∷ [] }

-- The event is recorded only when a row was updated.
unfoldable pub set_manual_takeover :
    ℕ
    → ℕ
    → String
    → Bool
    → Option String
    → Option String
    → Payload
    → VirtualGoodsStore
    → VirtualGoodsStore × Bool
unfolding update_where count_where
set_manual_takeover now later oid enabled reason operator detail s =
    let s' = record s {
      orders =
          update_where (has_key order_key oid)
            (λ o. record o { manual_takeover = enabled; updated_at = now }) s.orders;
    } in
    if ltb 0 (count_where (has_key order_key oid) s.orders)
    then (record_manual_takeover_event later oid enabled reason operator detail s', true)
    else (s', false)

-- The event as given, but for its id and time. The id of the new row is returned.
abbrev pub record_order_event : ℕ → OrderEvent → VirtualGoodsStore → VirtualGoodsStore × ℕ
record_order_event now event s = (
  record s {
    order_events = s.order_events ++ (record event { id = s.next_event_id; created_at = now }) ∷ [];
    next_event_id = suc s.next_event_id;
  },
  s.next_event_id,
)
