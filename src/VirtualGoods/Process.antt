-- ===== src/VirtualGoods/Process.antt =====
-- src/modules/virtual_goods/callbacks.py: a callback is verified, stored once, claimed, and applied to
-- its order, or its lease is released with the reason. `Target` is how the next status is chosen.
pub mod Types
pub mod Target
pub mod Verify
pub mod Cases
pub mod Released
pub mod OrderSteps
pub mod Applied
pub mod Again
pub mod Honest
use realxianyu.Base.{
  ℕ, Bool, true, false, not, ◌&&◌, Option, none, some, List, [], ◌∷◌, ◌++◌, String, ◌==◌, string_eq,
  if◌then◌else◌, text_append, or_text, or_empty, nonempty, one_of, Casing, map, dict_get,
}
use realxianyu.Base.Result.{Error, decode_error, Result, ok, raised}
use realxianyu.VirtualGoods.Status.{OrderStatus, delivery_failed, status_word, status_text}
use realxianyu.VirtualGoods.Rows.{Payload, Order, Callback, DeliveryNotice, VirtualGoodsStore}
use realxianyu.VirtualGoods.Orders.{OrderUpdate, upsert_order, get_order}
use realxianyu.VirtualGoods.Callbacks.{NewCallback, insert_callback}
use realxianyu.VirtualGoods.Callbacks.Lease.{
  get_callback, claim_callback_lease, mark_callback_processed,
}
use realxianyu.VirtualGoods.Process.Target.{
  pick, normalize_event_kind, resolve_target_status, resolve_fulfillment_status,
  is_regression_blocked,
}
use realxianyu.VirtualGoods.Process.Types.{
  Parsed, malformed, not_an_object, object, Env, Times, Request, Answer, answer, Reply,
  normalize_source_family, order_id_keys, product_id_keys, dedupe_key_of, dedupe_unless, Claimed,
  taken_over, previous_word, is_processed, is_verified, verify_error_of,
}
use realxianyu.VirtualGoods.Process.Verify.{Config, Verdict, verify}

module _ (env : Env) (t : Times) where
  abbrev pub release_callback_lease : ℕ → String → VirtualGoodsStore → VirtualGoodsStore
  release_callback_lease i last_error s = mark_callback_processed t.mark_at i false last_error s

  abbrev pub blocked_by : String → Claimed → Option Order → Answer
  blocked_by reason k existing =
      record (answer true k.duplicate false "received" k.callback_id none) {
        status = some (previous_word existing);
        blocked = some reason;
      }

  abbrev pub order_update : Claimed → OrderStatus → Option Order → OrderUpdate
  order_update k next existing = record {
    xianyu_order_id = k.order_id;
    xianyu_product_id = pick env.casing k.payload product_id_keys;
    supply_order_no =
        nonempty (pick env.casing k.payload ("supply_order_no" ∷ "supplier_order_no" ∷ []));
    session_id = pick env.casing k.payload ("session_id" ∷ "chat_id" ∷ []);
    order_status = status_text (status_word next);
    fulfillment_status = resolve_fulfillment_status next existing;
    callback_status = "processed";
    manual_takeover = false;
    last_error = none;
  }

  abbrev pub notify_failed : Claimed → OrderStatus → VirtualGoodsStore → VirtualGoodsStore
  notify_failed k delivery_failed s =
      let notice : DeliveryNotice = record {
        order_id = k.order_id;
        product_id = pick env.casing k.payload product_id_keys;
      } in
      record s { notified = s.notified ++ notice ∷ [] }
  notify_failed k _ s = s

  abbrev pub order_saved : Claimed → OrderStatus → VirtualGoodsStore → Result (Option Order) → Reply
  order_saved k next s (raised e) = (s, raised e)
  order_saved k next s (ok _) = (
    mark_callback_processed t.mark_at k.callback_id true "" (notify_failed k next s),
    ok (record (answer true k.duplicate true "processed" k.callback_id none) {
      status = some (status_word next);
    }),
  )

  unfoldable pub apply_status : Claimed → OrderStatus → Option Order → VirtualGoodsStore → Reply
  unfolding mark_callback_processed upsert_order
  apply_status k next existing s =
      let (s', saved) = upsert_order env.casing t.order_at (order_update k next existing) s in
      if taken_over existing
      then (
        release_callback_lease k.callback_id "manual_takeover" s,
        ok (blocked_by "manual_takeover" k existing),
      )
      else if is_regression_blocked env.casing existing next k.event_kind
      then (
        release_callback_lease k.callback_id "status_regression" s,
        ok (blocked_by "status_regression" k existing),
      )
      else order_saved k next s' saved

  abbrev pub apply_target : Claimed → VirtualGoodsStore → Result OrderStatus → Reply
  apply_target k s (raised e) = (s, raised e)
  apply_target k s (ok next) = apply_status k next (get_order k.order_id s) s

  -- the body of the `try`
  unfoldable pub apply_claimed : Claimed → VirtualGoodsStore → Reply
  unfolding apply_status get_order mark_callback_processed resolve_target_status
  apply_claimed k s =
      if not k.verify_passed
      then (
        release_callback_lease k.callback_id "verify_failed" s,
        ok (
            answer false k.duplicate false "failed" k.callback_id
              (some (or_text (or_empty k.verify_error) "invalid_signature"))),
      )
      else if k.order_id == ""
      then (
        release_callback_lease k.callback_id "missing_order_id" s,
        ok (answer false k.duplicate false "failed" k.callback_id (some "missing_order_id")),
      )
      else apply_target k s (resolve_target_status env.casing k.event_kind k.payload)

  -- except Exception: the lease is released and the exception raised again
  abbrev pub release_on_error : Claimed → Reply → Reply
  release_on_error k (s, ok a) = (s, ok a)
  release_on_error k (s, raised e) =
      (release_callback_lease k.callback_id (env.str_exc e) s, raised e)

  -- a row that is gone is read as {}
  abbrev pub claimed_of : ℕ → String → Bool → Option Callback → Claimed
  claimed_of i kind duplicate none = record {
    callback_id = i;
    payload = [];
    event_kind = kind;
    order_id = "";
    verify_passed = false;
    verify_error = none;
    duplicate = duplicate;
  }
  claimed_of i kind duplicate (some r) = record {
    callback_id = r.id;
    payload = r.payload;
    event_kind = or_text r.event_kind kind;
    order_id = pick env.casing r.payload order_id_keys;
    verify_passed = r.verify_passed;
    verify_error = r.verify_error;
    duplicate = duplicate;
  }

  unfoldable pub claim_and_apply : String → ℕ → Bool → VirtualGoodsStore → Reply
  unfolding claim_callback_lease get_callback apply_claimed
  claim_and_apply kind i inserted s =
      let (s', claimed_ok) =
        claim_callback_lease env.casing t.claim_at t.lease_at i (some false) none s in
      let k = claimed_of i kind (not inserted) (get_callback i s') in
      if claimed_ok
      then release_on_error k (apply_claimed k s')
      else (s', ok (answer true (not inserted) false "processing" i (some "lease_not_acquired")))

  unfoldable pub consider : String → ℕ → Bool → Option Callback → VirtualGoodsStore → Reply
  unfolding claim_and_apply
  consider kind i inserted existing s =
      if not inserted && is_processed existing
      then (s, ok (answer true true false "processed" i none))
      else if not (is_verified existing)
      then (s, ok (answer false (not inserted) false "failed" i (some (verify_error_of existing))))
      else claim_and_apply kind i inserted s

  abbrev pub after_insert : String → VirtualGoodsStore × Result (ℕ × Bool) → Reply
  after_insert kind (s, raised e) = (s, raised e)
  after_insert kind (s, ok (i, inserted)) = consider kind i inserted (get_callback i s) s

  abbrev pub reject_family : VirtualGoodsStore × Result (ℕ × Bool) → Reply
  reject_family (s, raised e) = (s, raised e)
  reject_family (s, ok (i, inserted)) =
      (s, ok (answer false (not inserted) false "failed" i (some "invalid_source_family")))

  -- {k.lower(): v}
  abbrev pub lowered : Payload → Payload
  lowered q = map (λ ((k, v) : String × String). (env.casing.lower k, v)) q

  -- the row that `process` stores for a request with this payload and verdict
  abbrev pub callback_of : Request → Payload → String → Verdict → NewCallback
  callback_of req payload family v =
      let kind = normalize_event_kind env.casing req.event_kind in
      let order_id = pick env.casing payload order_id_keys in
      let event_id =
        nonempty (pick env.casing payload ("external_event_id" ∷ "event_id" ∷ "eventId" ∷ [])) in
      record {
        callback_type = kind;
        external_event_id = event_id;
        dedupe_key = dedupe_unless event_id (dedupe_key_of env.md5_hex kind order_id req.raw_body);
        xianyu_order_id = nonempty order_id;
        payload = payload;
        raw_body = req.raw_body;
        headers = record { fields = req.headers; query_params = lowered req.query_params };
        signature = v.signature;
        verify_passed = v.passed;
        verify_error = v.error;
        source_family = some family;
        event_kind = some kind;
      }

  abbrev pub bad_family : Verdict
  bad_family = record { passed = false; signature = ""; error = "invalid_source_family" }

  abbrev pub verdict_of : Request → Result Verdict
  verdict_of req =
      verify env.md5_hex env.casing env.config
        (normalize_source_family env.casing req.source_family) req.raw_body req.headers
        (lowered req.query_params)

  abbrev pub store_callback :
      Request
      → Payload
      → String
      → Verdict
      → VirtualGoodsStore
      → VirtualGoodsStore × Result (ℕ × Bool)
  store_callback req payload family v s =
      insert_callback env.casing env.upper t.insert_at (callback_of req payload family v) s

  -- what `_verify` raises leaves `process` before the callback is stored
  abbrev pub store_verified :
      Request → Payload → String → Result Verdict → VirtualGoodsStore → Reply
  store_verified req payload family (raised e) s = (s, raised e)
  store_verified req payload family (ok v) s =
      after_insert (normalize_event_kind env.casing req.event_kind)
        (store_callback req payload family v s)

  unfoldable pub process_payload : Request → Payload → VirtualGoodsStore → Reply
  unfolding insert_callback consider get_callback verify
  process_payload req payload s =
      let family = normalize_source_family env.casing req.source_family in
      if family == ""
      then reject_family (store_callback req payload "unknown" bad_family s)
      else store_verified req payload family (verdict_of req) s

  abbrev pub with_payload : Request → VirtualGoodsStore → Parsed → Reply
  with_payload req s malformed = (s, raised decode_error)
  with_payload req s not_an_object = process_payload req [] s
  with_payload req s (object payload) = process_payload req payload s

  unfoldable pub process : Request → VirtualGoodsStore → Reply
  unfolding process_payload
  process req s =
      if req.raw_body == ""
      then process_payload req [] s
      else with_payload req s (env.json_loads req.raw_body)
