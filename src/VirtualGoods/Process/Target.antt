-- ===== src/VirtualGoods/Process/Target.antt =====
-- How src/modules/virtual_goods/callbacks.py reads the payload of a callback and chooses the status
-- that its order is to get.
use realxianyu.Base.{
  Bool, true, false, ◌&&◌, ◌||◌, Option, none, some, List, [], ◌∷◌, String, ◌==◌, string_eq,
  if◌then◌else◌, or_text, or_empty, any_keyword, Casing, dict_get,
}
use realxianyu.Base.Result.{Result, ok, raised}
use realxianyu.VirtualGoods.Status.{
  OrderStatus, pending_payment, paid_waiting_delivery, delivered, delivery_failed, refund_pending,
  refunded, closed, status_text, normalize_order_status,
}
use realxianyu.VirtualGoods.Rows.{Payload, fulfilled, failed, manual, Order}

-- the first value that is not blank, trimmed
unfoldable pub pick : Casing → Payload → List String → String
unfolding dict_get
pick c payload [] = ""
pick c payload (key ∷ keys) =
    let rest = pick c payload keys in or_text (c.strip (or_empty (dict_get key payload))) rest

abbrev pub normalize_event_kind : Casing → String → String
normalize_event_kind c event_kind = or_text (c.lower (c.strip event_kind)) "unknown"

-- the first value that is not empty: payload.get(k₁) or payload.get(k₂) or …
unfoldable pub first_value : Payload → List String → String
unfolding dict_get
first_value payload [] = ""
first_value payload (key ∷ keys) =
    let rest = first_value payload keys in or_text (or_empty (dict_get key payload)) rest

abbrev pub raw_status_of : Payload → String
raw_status_of payload = first_value payload (
    "order_status" ∷ "status" ∷ "tradeStatus" ∷ "refund_status" ∷ "refundStatus" ∷ "voucher_status"
    ∷ "code_status" ∷ [])

-- the status of a delivery callback whose text names one
abbrev pub delivery_status : Result OrderStatus → Result OrderStatus
delivery_status (raised e) = raised e
delivery_status (ok paid_waiting_delivery) = ok paid_waiting_delivery
delivery_status (ok delivery_failed) = ok delivery_failed
delivery_status (ok _) = ok delivered

-- The branch for "pay", "order" and "create" accepts each of the seven statuses, so that it is the
-- same as the last one.
unfoldable pub resolve_target_status : Casing → String → Payload → Result OrderStatus
unfolding normalize_order_status first_value
resolve_target_status c event_kind payload =
    let raw_status = raw_status_of payload in
    let text = c.lower raw_status in
    let kind = normalize_event_kind c event_kind in
    if any_keyword kind ("refund" ∷ [])
    then (if any_keyword text ("refunded" ∷ "refund_success" ∷ "已退款" ∷ "退款成功" ∷ [])
        then ok refunded
        else ok refund_pending)
    else if any_keyword kind ("coupon" ∷ "voucher" ∷ "code" ∷ "delivery" ∷ "deliver" ∷ "ship" ∷ [])
    then (if any_keyword text ("fail" ∷ "failed" ∷ "发码失败" ∷ "delivery_failed" ∷ [])
        then ok delivery_failed
        else if any_keyword text ("pending" ∷ "processing" ∷ "待发码" ∷ "发码中" ∷ [])
        then ok paid_waiting_delivery
        else if c.strip raw_status == ""
        then ok delivered
        else delivery_status (normalize_order_status c (status_text raw_status)))
    else if any_keyword kind ("close" ∷ "cancel" ∷ [])
    then ok closed
    else normalize_order_status c (status_text raw_status)

abbrev pub fulfillment_of : Option Order → String
fulfillment_of none = "pending"
fulfillment_of (some o) = elim o.fulfillment_status [
  | fulfilled ↦ "fulfilled"
  | failed ↦ "failed"
  | manual ↦ "manual"
  | _ ↦ "pending"
]

-- the second argument of the source is the fulfillment status of the order, "" without one
abbrev pub resolve_fulfillment_status : OrderStatus → Option Order → String
resolve_fulfillment_status delivered existing = "fulfilled"
resolve_fulfillment_status delivery_failed existing = "failed"
resolve_fulfillment_status refunded existing = "fulfilled"
resolve_fulfillment_status refund_pending existing = "delivering"
resolve_fulfillment_status pending_payment existing = fulfillment_of existing
resolve_fulfillment_status paid_waiting_delivery existing = fulfillment_of existing
resolve_fulfillment_status closed existing = fulfillment_of existing

abbrev pub is_waiting : OrderStatus → Bool
is_waiting paid_waiting_delivery = true
is_waiting _ = false

abbrev pub is_delivered : OrderStatus → Bool
is_delivered delivered = true
is_delivered _ = false

abbrev pub regresses : OrderStatus → OrderStatus → Bool → Bool
regresses delivered next order_event = is_waiting next
regresses refunded next order_event = is_delivered next
regresses closed next order_event = order_event && (is_waiting next || is_delivered next)
regresses _ next order_event = false

abbrev pub is_regression_blocked : Casing → Option Order → OrderStatus → String → Bool
is_regression_blocked c none next event_kind = false
is_regression_blocked c (some o) next event_kind =
    regresses o.order_status next
      (any_keyword (c.lower event_kind) ("order" ∷ "coupon" ∷ "code" ∷ []))
