-- ===== src/VirtualGoods/Status/Words.antt =====
-- The words of src/modules/virtual_goods/models.py read back as the statuses they stand for.
use realxianyu.Base.{◌≡◌, refl, Casing, string_eq, dict_get}
use realxianyu.Base.Result.{ok}
use realxianyu.VirtualGoods.Status.{
  OrderStatus, pending_payment, paid_waiting_delivery, delivered, delivery_failed, refund_pending,
  refunded, closed, status_word, status_text, normalize_order_status,
}

-- str.strip and str.lower leave the words alone, which are of lower-case ASCII letters and `_`
abbrev pub KeepsWords : Casing → Type 0
KeepsWords c =
    (st : OrderStatus)
    → (c.strip (status_word st) ≡ status_word st) × (c.lower (status_word st) ≡ status_word st)

-- Where strip and lower leave the seven words alone, each word is normalised to its status.
pub normalize_order_status-status_word :
    (c : Casing) (st : OrderStatus)
    → KeepsWords c
    → normalize_order_status c (status_text (status_word st)) ≡ ok st
unfolding normalize_order_status dict_get
normalize_order_status-status_word c pending_payment keeps =
    rw ((keeps pending_payment).0, (keeps pending_payment).1) refl
normalize_order_status-status_word c paid_waiting_delivery keeps =
    rw ((keeps paid_waiting_delivery).0, (keeps paid_waiting_delivery).1) refl
normalize_order_status-status_word c delivered keeps =
    rw ((keeps delivered).0, (keeps delivered).1) refl
normalize_order_status-status_word c delivery_failed keeps =
    rw ((keeps delivery_failed).0, (keeps delivery_failed).1) refl
normalize_order_status-status_word c refund_pending keeps =
    rw ((keeps refund_pending).0, (keeps refund_pending).1) refl
normalize_order_status-status_word c refunded keeps =
    rw ((keeps refunded).0, (keeps refunded).1) refl
normalize_order_status-status_word c closed keeps = rw ((keeps closed).0, (keeps closed).1) refl
