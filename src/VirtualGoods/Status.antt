-- ===== src/VirtualGoods/Status.antt =====
-- src/modules/virtual_goods/models.py: the status of an order, and the words and codes that stand
-- for it elsewhere.
pub mod Words
use realxianyu.Base.{
  ℕ, Option, none, some, List, [], ◌∷◌, String, text_append, Casing, ◌==◌, string_eq, nat_eq,
  if◌then◌else◌, dict_get,
}
use realxianyu.Base.Result.{Result, ok, raised, value_error, bad_code}

pub data OrderStatus : Type 0 where
  pending_payment paid_waiting_delivery delivered delivery_failed refund_pending : OrderStatus
  refunded closed : OrderStatus

abbrev pub status_word : OrderStatus → String
status_word pending_payment = "pending_payment"
status_word paid_waiting_delivery = "paid_waiting_delivery"
status_word delivered = "delivered"
status_word delivery_failed = "delivery_failed"
status_word refund_pending = "refund_pending"
status_word refunded = "refunded"
status_word closed = "closed"

-- ORDER_STATUS_VALUES, with the status that each word stands for
abbrev pub order_status_values : List (String × OrderStatus)
order_status_values =
    ("pending_payment", pending_payment)
    ∷ ("paid_waiting_delivery", paid_waiting_delivery)
    ∷ ("delivered", delivered)
    ∷ ("delivery_failed", delivery_failed)
    ∷ ("refund_pending", refund_pending)
    ∷ ("refunded", refunded)
    ∷ ("closed", closed)
    ∷ []

abbrev pub legacy_order_status_map : List (String × OrderStatus)
legacy_order_status_map =
    ("pending", pending_payment)
    ∷ ("paid", paid_waiting_delivery)
    ∷ ("processing", paid_waiting_delivery)
    ∷ ("shipping", paid_waiting_delivery)
    ∷ ("completed", delivered)
    ∷ ("after_sales", refund_pending)
    ∷ ("closed", closed)
    ∷ []

abbrev pub explicit_text_map : List (String × OrderStatus)
explicit_text_map =
    ("待付款", pending_payment)
    ∷ ("已付款", paid_waiting_delivery)
    ∷ ("待发货", paid_waiting_delivery)
    ∷ ("已发货", delivered)
    ∷ ("已完成", delivered)
    ∷ ("发货失败", delivery_failed)
    ∷ ("退款中", refund_pending)
    ∷ ("售后中", refund_pending)
    ∷ ("已退款", refunded)
    ∷ ("已关闭", closed)
    ∷ ("已取消", closed)
    ∷ []

-- OPEN_PLATFORM_ORDER_STATUS_MAP.get(code)
abbrev pub open_platform_order_status : ℕ → Option OrderStatus
open_platform_order_status code =
    if code == 11
    then some pending_payment
    else if code == 12
    then some paid_waiting_delivery
    else if code == 21
    then some paid_waiting_delivery
    else if code == 22
    then some delivered
    else if code == 23
    then some refund_pending
    else if code == 24
    then some closed
    else none

-- the argument `raw`: None, an int (a negative one is in no table), or a text
pub data RawStatus : Type 0 where
  no_status : RawStatus
  status_code : ℕ → RawStatus
  status_text : String → RawStatus

abbrev pub found_or : Option OrderStatus → Result OrderStatus → Result OrderStatus
found_or none r = r
found_or (some st) r = ok st

unfoldable pub normalize_order_status : Casing → RawStatus → Result OrderStatus
unfolding dict_get
normalize_order_status c no_status =
    raised (value_error "Unsupported virtual_goods order status: None")
normalize_order_status c (status_code code) =
    found_or (open_platform_order_status code)
      (raised (bad_code "Unsupported virtual_goods order status code: " code))
normalize_order_status c (status_text raw) =
    let text = c.strip raw in
    let word = c.lower text in
    if text == ""
    then raised (value_error "Unsupported virtual_goods order status: empty")
    else found_or (dict_get word order_status_values) (
        found_or (dict_get word legacy_order_status_map) (
          found_or (dict_get text explicit_text_map)
            (raised (value_error (text_append "Unsupported virtual_goods order status: " raw)))))
