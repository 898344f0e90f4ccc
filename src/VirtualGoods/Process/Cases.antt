-- ===== src/VirtualGoods/Process/Cases.antt =====
-- The ways in which `process` of src/modules/virtual_goods/callbacks.py can end, as rules to show a
-- property of what it leaves and returns.
use realxianyu.Base.{
  ℕ, ◌≡◌, refl, Bool, true, false, not, ◌&&◌, none, some, [], String, arith, ◌==◌, string_eq,
  if_both, if_both_with,
}
use realxianyu.Base.Result.{Error, Result, ok, raised}
use realxianyu.VirtualGoods.Callbacks.Invariant.{SameTables, SameTables-refl}
use realxianyu.VirtualGoods.Status.{
  OrderStatus, pending_payment, paid_waiting_delivery, delivered, delivery_failed, refund_pending,
  refunded, closed, status_word, status_text, normalize_order_status,
}
use realxianyu.VirtualGoods.Rows.{Payload, FulfillmentStatus, CallbackStatus, VirtualGoodsStore}
use realxianyu.VirtualGoods.Orders.{upsert_order, get_order}
use realxianyu.VirtualGoods.Orders.Upsert.{with_order, upsert_order-cases}
use realxianyu.VirtualGoods.Callbacks.{NewCallback, insert_callback}
use realxianyu.VirtualGoods.Callbacks.Lease.{get_callback, mark_callback_processed}
use realxianyu.VirtualGoods.Process.Target.{
  normalize_event_kind, is_regression_blocked, resolve_target_status,
}
use realxianyu.VirtualGoods.Process.Verify.{Verdict}
use realxianyu.VirtualGoods.Process.{
  process, process_payload, with_payload, after_insert, store_verified, reject_family, consider,
  claim_and_apply, apply_claimed, apply_target, apply_status, order_saved, order_update,
  notify_failed, release_callback_lease, callback_of, store_callback, bad_family, verdict_of,
}
use realxianyu.VirtualGoods.Process.Types.{
  Env, Times, Parsed, malformed, not_an_object, object, Request, Answer, answer, Reply, Claimed,
  taken_over, is_processed, is_verified, normalize_source_family,
}

-- an answer that does not say that the callback is processed
pub record Unapplied (a : Answer) : Type 0 where
  pub not_processed : a.processed ≡ false
  pub other_state : (a.processed_state == "processed") ≡ false

-- A callback that `process` does not apply is not reported as processed, and one that it reports as
-- a processed duplicate is marked as processed.
pub record Quiet (s : VirtualGoodsStore) (a : Answer) : Type 0 where
  pub not_processed : a.processed ≡ false
  pub duplicate_done :
      (a.processed_state == "processed") ≡ true → is_processed (get_callback a.callback_id s) ≡ true

-- a notification touches no table
pub notify_failed-SameTables :
    (env : Env) (t : Times) (k : Claimed) (next : OrderStatus) (s : VirtualGoodsStore)
    → SameTables (notify_failed env t k next s) s
notify_failed-SameTables env t k pending_payment s = SameTables-refl s
notify_failed-SameTables env t k paid_waiting_delivery s = SameTables-refl s
notify_failed-SameTables env t k delivered s = SameTables-refl s
notify_failed-SameTables env t k delivery_failed s = record {
  same_ttl = refl;
  same_claimer = refl;
  same_callbacks = refl;
  same_next = refl;
  same_orders = refl;
}
notify_failed-SameTables env t k refund_pending s = SameTables-refl s
notify_failed-SameTables env t k refunded s = SameTables-refl s
notify_failed-SameTables env t k closed s = SameTables-refl s

module _ (env : Env) (t : Times) where
  -- the store after an order was written
  abbrev pub written_store :
      Claimed
      → OrderStatus
      → OrderStatus
      → FulfillmentStatus
      → CallbackStatus
      → VirtualGoodsStore
      → VirtualGoodsStore
  written_store k next st f cb s =
      with_order env.casing t.order_at (order_update env t k next (get_order k.order_id s)) s st f
        cb

  -- and after the notification and the mark of the callback
  abbrev pub settled_store :
      Claimed
      → OrderStatus
      → OrderStatus
      → FulfillmentStatus
      → CallbackStatus
      → VirtualGoodsStore
      → VirtualGoodsStore
  settled_store k next st f cb s =
      mark_callback_processed t.mark_at k.callback_id true ""
        (notify_failed env t k next (written_store k next st f cb s))

  abbrev pub settled_answer : Claimed → OrderStatus → Answer
  settled_answer k next = record (answer true k.duplicate true "processed" k.callback_id none) {
    status = some (status_word next);
  }

  -- what the guards have excluded when an order is written
  pub record Cleared (k : Claimed) (next : OrderStatus) (s : VirtualGoodsStore) : Type 0 where
    pub not_taken_over : taken_over (get_order k.order_id s) ≡ false
    pub no_regression :
        is_regression_blocked env.casing (get_order k.order_id s) next k.event_kind ≡ false

  module _ (k : Claimed) (s : VirtualGoodsStore) (P : Reply → Type 0) where
    -- the rules for a claimed callback: it is released, or an error is raised, or it is applied
    abbrev pub Releases : Type 0
    Releases =
        (reason : String) (a : Answer)
        → Unapplied a
        → P (release_callback_lease env t k.callback_id reason s, ok a)

    abbrev pub Fails : Type 0
    Fails = (e : Error) → P (s, raised e)

    abbrev pub Applies : Type 0
    Applies =
        (next st : OrderStatus) (f : FulfillmentStatus) (cb : CallbackStatus)
        → Cleared k next s
        → normalize_order_status env.casing (status_text (status_word next)) ≡ ok st
        → P (settled_store k next st f cb s, ok (settled_answer k next))

    order_saved-cases :
        (next : OrderStatus)
        → Cleared k next s
        → Fails
        → Applies
        → (let (s', saved) =
              upsert_order env.casing t.order_at
                (order_update env t k next (get_order k.order_id s))
                s in
            P (order_saved env t k next s' saved))
    order_saved-cases next clear fails applies =
        upsert_order-cases env.casing t.order_at
          (order_update env t k next (get_order k.order_id s)) s
          (λ r. P (order_saved env t k next r.0 r.1)) fails
          (λ st e f cb _ _. applies next st f cb clear e)

    apply_status-cases :
        (next : OrderStatus)
        → Releases
        → Fails
        → Applies
        → P (apply_status env t k next (get_order k.order_id s) s)
    unfolding apply_status
    apply_status-cases next releases fails applies =
        let existing = get_order k.order_id s in
        if_both_with P (taken_over existing)
          (λ _. releases "manual_takeover" _ (record { not_processed = refl; other_state = refl }))
          (λ free.
            if_both_with P (is_regression_blocked env.casing existing next k.event_kind)
              (λ _.
                releases "status_regression" _
                  (record { not_processed = refl; other_state = refl }))
              (λ forward.
                order_saved-cases next (record { not_taken_over = free; no_regression = forward })
                  fails applies))

    apply_target-cases :
        (r : Result OrderStatus) → Releases → Fails → Applies → P (apply_target env t k s r)
    apply_target-cases (raised e) releases fails applies = fails e
    apply_target-cases (ok next) releases fails applies =
        apply_status-cases next releases fails applies

    pub apply_claimed-cases : Releases → Fails → Applies → P (apply_claimed env t k s)
    unfolding apply_claimed
    apply_claimed-cases releases fails applies =
        if_both P (not k.verify_passed)
          (releases "verify_failed" _ (record { not_processed = refl; other_state = refl }))
          (if_both P (k.order_id == "")
            (releases "missing_order_id" _ (record { not_processed = refl; other_state = refl }))
            (apply_target-cases (resolve_target_status env.casing k.event_kind k.payload) releases
              fails applies))

  module _ (req : Request) (s : VirtualGoodsStore) (P : Reply → Type 0)
      (I : VirtualGoodsStore → Type 0) where
    -- The rules for `process`: `I` holds of what `insert_callback` leaves.
    abbrev pub Inserts : Type 0
    Inserts = (a : NewCallback) → I (insert_callback env.casing env.upper t.insert_at a s).0

    abbrev pub Rejects : Type 0
    Rejects = (s' : VirtualGoodsStore) (e : Error) → I s' → P (s', raised e)

    abbrev pub Waits : Type 0
    Waits = (s' : VirtualGoodsStore) (a : Answer) → I s' → Quiet s' a → P (s', ok a)

    abbrev pub Claims : Type 0
    Claims =
        (s' : VirtualGoodsStore) (kind : String) (i : ℕ) (inserted : Bool)
        → I s'
        → P (claim_and_apply env t kind i inserted s')

    consider-cases :
        (kind : String) (i : ℕ) (inserted : Bool) (s' : VirtualGoodsStore)
        → I s'
        → Waits
        → Claims
        → P (consider env t kind i inserted (get_callback i s') s')
    unfolding consider
    consider-cases kind i inserted s' h waits claims =
        if_both_with P (not inserted && is_processed (get_callback i s'))
          (λ e.
            waits s' _ h (record { not_processed = refl; duplicate_done = λ _. ground (arith, e) }))
          (λ _.
            if_both_with P (not (is_verified (get_callback i s')))
              (λ _.
                waits s' _ h
                  (record { not_processed = refl; duplicate_done = λ d. ground (arith, d) }))
              (λ _. claims s' kind i inserted h))

    reject_family-cases :
        (r : VirtualGoodsStore × Result (ℕ × Bool))
        → I r.0
        → Rejects
        → Waits
        → P (reject_family env t r)
    reject_family-cases (s', raised e) h rejects waits = rejects s' e h
    reject_family-cases (s', ok (i, inserted)) h rejects waits =
        waits s' _ h (record { not_processed = refl; duplicate_done = λ d. ground (arith, d) })

    after_insert-cases :
        (kind : String) (r : VirtualGoodsStore × Result (ℕ × Bool))
        → I r.0
        → Rejects
        → Waits
        → Claims
        → P (after_insert env t kind r)
    after_insert-cases kind (s', raised e) h rejects waits claims = rejects s' e h
    after_insert-cases kind (s', ok (i, inserted)) h rejects waits claims =
        consider-cases kind i inserted s' h waits claims

    store_verified-cases :
        (payload : Payload) (family : String) (v : Result Verdict)
        → I s
        → Inserts
        → Rejects
        → Waits
        → Claims
        → P (store_verified env t req payload family v s)
    store_verified-cases payload family (raised e) h inserts rejects waits claims = rejects s e h
    store_verified-cases payload family (ok v) h inserts rejects waits claims =
        after_insert-cases (normalize_event_kind env.casing req.event_kind)
          (store_callback env t req payload family v s)
          (inserts (callback_of env t req payload family v)) rejects waits claims

    process_payload-cases :
        (payload : Payload)
        → I s
        → Inserts
        → Rejects
        → Waits
        → Claims
        → P (process_payload env t req payload s)
    unfolding process_payload
    process_payload-cases payload h inserts rejects waits claims =
        let family = normalize_source_family env.casing req.source_family in
        if_both P (family == "")
          (reject_family-cases (store_callback env t req payload "unknown" (bad_family env t) s)
            (inserts (callback_of env t req payload "unknown" (bad_family env t))) rejects waits)
          (store_verified-cases payload family (verdict_of env t req) h inserts rejects waits
            claims)

    with_payload-cases :
        (parsed : Parsed)
        → I s
        → Inserts
        → Rejects
        → Waits
        → Claims
        → P (with_payload env t req s parsed)
    with_payload-cases malformed h inserts rejects waits claims = rejects s _ h
    with_payload-cases not_an_object h inserts rejects waits claims =
        process_payload-cases [] h inserts rejects waits claims
    with_payload-cases (object payload) h inserts rejects waits claims =
        process_payload-cases payload h inserts rejects waits claims

    -- `process` raises an error, answers without a claim, or claims and applies the callback.
    pub process-cases : I s → Inserts → Rejects → Waits → Claims → P (process env t req s)
    unfolding process
    process-cases h inserts rejects waits claims =
        if_both P (req.raw_body == "") (process_payload-cases [] h inserts rejects waits claims)
          (with_payload-cases (env.json_loads req.raw_body) h inserts rejects waits claims)
