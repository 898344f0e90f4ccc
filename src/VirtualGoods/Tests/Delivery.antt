-- ===== src/VirtualGoods/Tests/Delivery.antt =====
-- The theorems about callbacks at the store and the callback of the tests.

use realxianyu.Base.{ℕ, ◌≡◌, refl, true, false, none, some, List, [], ◌∷◌, arith, text_append}
use realxianyu.Base.Result.{ok, raised, type_error}
use realxianyu.VirtualGoods.Rows.{Payload, VirtualGoodsStore}
use realxianyu.VirtualGoods.Orders.{get_order}
use realxianyu.VirtualGoods.Callbacks.Lease.{
  claim_callback_lease, claim_callback, oldest, is_claimable,
}
use realxianyu.VirtualGoods.Callbacks.Oldest.{lease_found, claim_callback-lease_found}
use realxianyu.Base.Table.{select_where}
use realxianyu.VirtualGoods.Callbacks.Invariant.{CallbacksValid, SameTables}
use realxianyu.VirtualGoods.Callbacks.Leases.{claim_callback_lease-exclusive}
use realxianyu.VirtualGoods.Callbacks.Refine.{Op, claim, mark, locks, replay, run, run_refines}
use realxianyu.VirtualGoods.Process.Target.{pick}
use realxianyu.VirtualGoods.Process.{process}
use realxianyu.VirtualGoods.Process.Types.{Request, Answer, answer}
use realxianyu.VirtualGoods.Process.Verify.{verify}
use realxianyu.VirtualGoods.Process.Released.{Idle, process-Idle}
use realxianyu.VirtualGoods.Process.OrderSteps.{OrderStep, process-OrderStep}
use realxianyu.VirtualGoods.Process.Again.{process_again}
use realxianyu.VirtualGoods.Process.Applied.{Known}
use realxianyu.VirtualGoods.Process.Honest.{body_payload}
use realxianyu.VirtualGoods.Ingress.{success_ack, handle}
use realxianyu.VirtualGoods.Ingress.Acks.{request_of, handle_acknowledged}
use realxianyu.VirtualGoods.Tests.{
  casing, payload, env, times, later, signed, request, order, store,
}

store-valid : CallbacksValid store
store-valid = record {
  ids_ascend = tt;
  ids_below = tt;
  ids_positive = tt;
  next_positive = omega arith;
  events_differ = tt;
  rows_valid = tt;
}

abbrev delivered_store : VirtualGoodsStore
delivered_store = (process env times request store).0

abbrev delivered_answer : Answer
delivered_answer = record (answer true false true "processed" 1 none) { status = some "delivered" }

process_delivers : process env times request store ≡ (delivered_store, ok delivered_answer)
unfolding process pick text_append
process_delivers = refl

process_again_example :
    (let r =
        process env later (record request { headers = []; query_params = [] }) delivered_store in
      SameTables r.0 delivered_store × (r.1 ≡ ok (answer true true false "processed" 1 none)))
unfolding verify
process_again_example =
    process_again env times later request [] [] store delivered_store delivered_answer store-valid
      process_delivers refl

-- a signature outside ASCII is not compared: the exception leaves `process`, and nothing is stored
abbrev accented : Request
accented = record request { headers = ("x-sign", "é") ∷ ("x-timestamp", "1") ∷ [] }

unreadable_signature : process env later accented delivered_store ≡ (
  delivered_store,
  raised (type_error "comparing strings with non-ASCII characters is not supported"),
)
unfolding process text_append
unreadable_signature = refl

process-Idle_example : Idle delivered_store
process-Idle_example = process-Idle env times request store (store-valid, tt)

-- the identity leaves every word alone
process-OrderStep_example : OrderStep (some order) (get_order "o1" delivered_store)
unfolding get_order
process-OrderStep_example = process-OrderStep env times (λ st. (refl, refl)) request "o1" store

-- the store with the callback stored and verified, but not processed
abbrev waiting_store : VirtualGoodsStore
waiting_store = record store {
  callbacks =
      (record {
        id = 1;
        callback_type = "order";
        source_family = "open_platform";
        event_kind = "order";
        external_event_id = some "e1";
        dedupe_key = none;
        xianyu_order_id = some "o1";
        payload = payload;
        raw_body = "body";
        headers = record { fields = []; query_params = [] };
        signature = "";
        verify_passed = true;
        verify_error = none;
        processed = false;
        processed_at = none;
        claimed_by = none;
        claimed_at = none;
        claim_expires_at = none;
        last_process_error = none;
        attempt_count = 0;
        created_at = 10;
      })
      ∷ [];
  next_callback_id = 2;
}

waiting-valid : CallbacksValid waiting_store
waiting-valid = record {
  ids_ascend = (tt, tt);
  ids_below = (omega arith, tt);
  ids_positive = (omega arith, tt);
  next_positive = omega arith;
  events_differ = (tt, tt);
  rows_valid =
      (record { holder_and_expiry = refl; start_and_expiry = refl; processed_time = refl }, tt);
}

claim_callback_lease-exclusive_example :
    (let s' = (claim_callback_lease casing 20 20 1 (some false) none waiting_store).0 in
      claim_callback_lease casing 70 70 1 none (some "host:2") s' ≡ (s', false))
unfolding claim_callback_lease
claim_callback_lease-exclusive_example =
    claim_callback_lease-exclusive casing waiting_store waiting-valid 20 20 70 70 1 (some false)
      none none (some "host:2") refl (omega arith)

claim_callback-lease_found_example :
    claim_callback casing 20 20 false none waiting_store
    ≡ lease_found casing 20 20 false none waiting_store
        (oldest (select_where (is_claimable 20 (some false)) waiting_store.callbacks))
claim_callback-lease_found_example =
    claim_callback-lease_found casing 20 20 false none waiting_store waiting-valid

abbrev ops : List Op
ops = claim 20 20 1 none none ∷ claim 30 30 1 none (some "b") ∷ mark 40 1 true "" ∷ []

run_refines_example :
    (let (m, bs) = replay casing 60 "host:1" ops (locks waiting_store) in
      (locks (run casing ops waiting_store).0 ≡ m) × ((run casing ops waiting_store).1 ≡ bs))
run_refines_example = run_refines casing ops waiting_store waiting-valid

handle_delivers :
    handle env times "open/order" "body" signed [] store ≡ (delivered_store, ok success_ack)
unfolding handle pick text_append
handle_delivers = refl

handle_acknowledged_example :
    (i : ℕ) × (p : Payload) × (body_payload env "body" ≡ some p)
    × Known env times (request_of env times "open/order" "body" signed []) p i delivered_store
handle_acknowledged_example =
    handle_acknowledged env times "open/order" "body" signed [] store delivered_store success_ack
      store-valid handle_delivers refl
