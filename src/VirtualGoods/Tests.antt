-- ===== src/VirtualGoods/Tests.antt =====
-- A store with one order and a signed callback about it, and the theorems at these inputs. `md5_hex`
-- is the identity there, so that a signature can be read.
mod Delivery
mod Tasks
use realxianyu.Base.{ℕ, Bool, true, false, Option, none, some, List, [], ◌∷◌, String, Casing}
use realxianyu.VirtualGoods.Status.{paid_waiting_delivery}
use realxianyu.VirtualGoods.Rows.{Payload, pending, no_callback, Order, VirtualGoodsStore}
use realxianyu.VirtualGoods.Process.Verify.{Config}
use realxianyu.VirtualGoods.Process.Types.{Env, Times, Request, object}

abbrev pub casing : Casing
casing = record { strip = λ t. t; lower = λ t. t }

abbrev pub payload : Payload
payload = ("order_id", "o1") ∷ ("event_id", "e1") ∷ ("status", "delivered") ∷ []

abbrev pub env : Env
env = record {
  casing = casing;
  upper = λ t. t;
  md5_hex = λ t. t;
  json_loads = λ _. object payload;
  str_exc = λ _. "error";
  config = record {
    app_key = "k";
    app_secret = "s";
    vs_app_id = "";
    vs_mch_id = "";
    vs_mch_secret = "";
  };
}

abbrev pub times : Times
times = record { insert_at = 10; claim_at = 11; lease_at = 11; order_at = 12; mark_at = 13 }

abbrev pub later : Times
later = record { insert_at = 90; claim_at = 91; lease_at = 91; order_at = 92; mark_at = 93 }

abbrev pub signed : Payload
signed = ("x-sign", "k,body,t,s") ∷ ("x-timestamp", "t") ∷ []

abbrev pub request : Request
request = record {
  source_family = "open";
  event_kind = "order";
  raw_body = "body";
  headers = signed;
  query_params = [];
}

abbrev pub order : Order
order = record {
  xianyu_order_id = "o1";
  xianyu_product_id = "p1";
  supply_order_no = some "n1";
  session_id = "c1";
  order_status = paid_waiting_delivery;
  fulfillment_status = pending;
  callback_status = no_callback;
  manual_takeover = false;
  last_error = none;
  created_at = 5;
  updated_at = 5;
}

abbrev pub store : VirtualGoodsStore
store = record {
  callback_lease_ttl_sec = 60;
  callback_claimer_id = "host:1";
  orders = order ∷ [];
  callbacks = [];
  next_callback_id = 1;
  takeover_events = [];
  order_events = [];
  next_event_id = 1;
  exceptions = [];
  next_exception_id = 1;
  exception_transitions = [];
  mappings = [];
  notified = [];
}
