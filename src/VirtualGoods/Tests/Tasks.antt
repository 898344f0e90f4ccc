-- ===== src/VirtualGoods/Tests/Tasks.antt =====
-- The theorems about statuses and tasks at concrete inputs: a service that fails for the second of
-- two callbacks and has no reporter.
use realxianyu.VirtualGoods.Rows.{VirtualGoodsStore}
use realxianyu.VirtualGoods.Orders.{OrderUpdate, upsert_order}
use realxianyu.VirtualGoods.Orders.Upsert.{Upserted, upsert_order-get_order}
use realxianyu.VirtualGoods.Exceptions.{ExceptionKey, record_ops_exception}
use realxianyu.VirtualGoods.Exceptions.Occurrences.{PoolValid, total, record_ops_exception-total}
use realxianyu.Base.{ℕ, suc, ◌+◌, arith, ◌≡◌, true, false, none, some, List, [], ◌∷◌, String}
use realxianyu.Base.Result.{Error, Result, ok}
use realxianyu.VirtualGoods.Status.{status_code}
use realxianyu.VirtualGoods.Scheduler.{
  Service, timeout_scan, manual_takeover_observe, callback_replay,
}
use realxianyu.VirtualGoods.Scheduler.Counters.{Ends, Handled, each_item-Truthful}
use realxianyu.VirtualGoods.Scheduler.Replay.{Accounted, callback_replay-Accounted}
use realxianyu.VirtualGoods.Tests.{casing, store}

-- the state counts the calls
abbrev service : Service ℕ ℕ String
service = record {
  list_method = some (λ limit s. (s, ok ("order" ∷ "bogus" ∷ [])));
  list_fallback = none;
  item_method = none;
  item_fallback =
      some (λ x s. (suc s, ok (record { is_failure = false; error = ""; escalated = true })));
  report_method = none;
}

abbrev listed : ℕ × Result (List String)
listed = (0, ok ("order" ∷ "bogus" ∷ []))

abbrev describe : Error → String
describe e = "error"

each_item-Truthful_example :
    Ends describe service
      (Handled describe service "resolve_timeout_order, handle_timeout_order")
      listed
      (timeout_scan describe service 10 0)
    × Ends describe service
        (Handled describe service "observe_manual_takeover_order, observe_manual_takeover")
        listed
        (manual_takeover_observe describe service 10 0)
each_item-Truthful_example = each_item-Truthful describe service 10 0

callback_replay-Accounted_example :
    Ends describe service
      (Accounted describe service casing (λ x. x))
      listed
      (callback_replay describe service casing (λ x. x) 10 0)
callback_replay-Accounted_example =
    callback_replay-Accounted describe service casing (λ x. x) (λ x t. tt) 10 0

abbrev failing : ExceptionKey
failing = record { xianyu_order_id = some "o1"; event_kind = "order"; exception_code = "lost" }

abbrev noted : VirtualGoodsStore
noted = (record_ops_exception (λ t. t) 20 failing "P1" [] store).0

record_ops_exception-total_example :
    (let s' = (record_ops_exception (λ t. t) 30 failing "P0" [] noted).0 in
      PoolValid s' × (total s'.exceptions ≡ total noted.exceptions + 1))
unfolding record_ops_exception
record_ops_exception-total_example =
    record_ops_exception-total (λ t. t) 30 failing "P0" [] noted
      (record { ids_ascend = (tt, tt); ids_below = (omega arith, tt) })

abbrev update : OrderUpdate
update = record {
  xianyu_order_id = "o2";
  xianyu_product_id = "p2";
  supply_order_no = some "n1";
  session_id = "";
  order_status = status_code 12;
  fulfillment_status = "";
  callback_status = "";
  manual_takeover = false;
  last_error = none;
}

upsert_order-get_order_example :
    Upserted casing 30 update store "o1" (upsert_order casing 30 update store)
upsert_order-get_order_example = upsert_order-get_order casing 30 update store "o1"
