-- ===== src/VirtualGoods/Scheduler.antt =====
-- src/modules/virtual_goods/scheduler.py: the three periodic tasks. The service is a parameter: its
-- methods may be missing, change its state `S`, and raise. `A` is an order or a callback as the
-- service lists it.
pub mod Counters
pub mod Replay
use realxianyu.Base.{
  ℕ, zero, ◌+◌, Bool, true, false, not, Option, none, some, List, [], ◌∷◌, ◌++◌, String, ltb, ◌==◌,
  string_eq, if◌then◌else◌, text_append, or_text, or_empty, one_of, Casing,
}
use realxianyu.Base.Result.{Error, attribute_error, Result, ok, raised}

-- A result of the service: whether its "ok" is False, its "error", and whether "escalated" is True.
-- A result that is no dict has none of them.
pub record Outcome : Type 0 where
  pub is_failure : Bool
  pub error : String
  pub escalated : Bool

-- the service's method under the first of two names, and how it is called
abbrev pub Method : Type 0 → Type 0 → Type 0 → Type 0
Method S A B = Option (A → S → S × Result B)

abbrev pub first_method : {S A B : Type 0} → Method S A B → Method S A B → Method S A B
first_method none m = m
first_method (some f) m = some f

-- the methods that one task calls; `Q` is what it asks the list for
pub record Service (S Q A : Type 0) : Type 0 where
  pub list_method : Method S Q (List A)
  pub list_fallback : Method S Q (List A)
  pub item_method : Method S A Outcome
  pub item_fallback : Method S A Outcome
  -- `report_scheduler_anomaly`, whose exception is not caught
  pub report_method : Method S A Bool

-- `_invoke`; `names` is the list of the names in its message
abbrev pub invoke : {S A B : Type 0} → String → Method S A B → A → S → S × Result B
invoke names none x s =
    (s, raised (attribute_error (text_append "service method not found, expected one of: " names)))
invoke names (some f) x s = f x s

-- the counters and errors of a run; `fetched` is "scanned", "timed_out", "fetched" or "manual_orders",
-- `succeeded` is "resolved", "succeeded" or "observed"
pub record Metrics : Type 0 where
  pub fetched : ℕ
  pub replayed : ℕ
  pub succeeded : ℕ
  pub failed : ℕ
  pub unknown_event_kind : ℕ
  pub escalated : ℕ
  pub errors : List String

abbrev pub no_metrics : Metrics
no_metrics = record {
  fetched = 0;
  replayed = 0;
  succeeded = 0;
  failed = 0;
  unknown_event_kind = 0;
  escalated = 0;
  errors = [];
}

pub record TaskResult : Type 0 where
  pub is_ok : Bool
  pub metrics : Metrics

abbrev pub add_error : String → Metrics → Metrics
add_error e m = record m { failed = m.failed + 1; errors = m.errors ++ e ∷ [] }

-- the result of one item: an exception, a dict whose "ok" is False, or a success
abbrev pub tally : (Error → String) → String → Result Outcome → Metrics → Metrics
tally str_exc fallback (raised e) m = add_error (str_exc e) m
tally str_exc fallback (ok o) m =
    let m' = if o.escalated then record m { escalated = m.escalated + 1 } else m in
    if o.is_failure
    then add_error (or_text o.error fallback) m'
    else record m' { succeeded = m'.succeeded + 1 }

abbrev pub finished : Metrics → TaskResult
finished m = record { is_ok = not (ltb 0 m.failed); metrics = m }

abbrev pub known_event_kinds : List String
known_event_kinds = "order" ∷ "refund" ∷ "voucher" ∷ "coupon" ∷ "code" ∷ []

module _ {S Q A : Type 0} (str_exc : Error → String) (svc : Service S Q A) where
  -- the loop of `timeout_scan` and of `manual_takeover_observe`
  unfoldable pub each_item : String → String → List A → S → Metrics → S × Metrics
  each_item names fallback [] s m = (s, m)
  each_item names fallback (x ∷ xs) s m =
      let (s', r) = invoke names (first_method svc.item_method svc.item_fallback) x s in
      each_item names fallback xs s'
        (tally str_exc fallback r (record m { fetched = m.fetched + 1 }))

  -- Only an AttributeError of the list is caught.
  abbrev pub run_listed :
      (List A → S → S × Result TaskResult) → S × Result (List A) → S × Result TaskResult
  run_listed each (s, raised (attribute_error e)) = (
    s,
    ok (record {
      is_ok = false;
      metrics = record no_metrics { errors = str_exc (attribute_error e) ∷ [] };
    }),
  )
  run_listed each (s, raised e) = (s, raised e)
  run_listed each (s, ok xs) = each xs s

  abbrev pub completed : S × Metrics → S × Result TaskResult
  completed (s, m) = (s, ok (finished m))

  abbrev pub list_items : String → Q → S → S × Result (List A)
  list_items names query s = invoke names (first_method svc.list_method svc.list_fallback) query s

  abbrev pub run_items : String → String → List A → S → S × Result TaskResult
  run_items names fallback xs s = completed (each_item names fallback xs s no_metrics)

  unfoldable pub timeout_scan : Q → S → S × Result TaskResult
  unfolding each_item
  timeout_scan query s =
      run_listed (run_items "resolve_timeout_order, handle_timeout_order" "timeout_resolve_failed")
        (list_items "list_timeout_candidates, scan_timeout_orders" query s)

  unfoldable pub manual_takeover_observe : Q → S → S × Result TaskResult
  unfolding each_item
  manual_takeover_observe query s =
      run_listed
        (run_items "observe_manual_takeover_order, observe_manual_takeover" "manual_observe_failed")
        (list_items "list_manual_takeover_orders, fetch_manual_takeover_orders" query s)

  abbrev pub report : A → S → S × Result Bool
  report x s = elim svc.report_method [ none ↦ (s, ok true) | some f ↦ f x s ]

  abbrev pub count_unknown : String → Metrics → Metrics
  count_unknown kind m =
      add_error (text_append "unknown event_kind: " kind)
        (record m { unknown_event_kind = m.unknown_event_kind + 1 })

  abbrev pub after_report : Metrics → S × Result Bool → S × Result Metrics
  after_report m (s, raised e) = (s, raised e)
  after_report m (s, ok _) = (s, ok m)

  -- one pass of the loop of `callback_replay`; `kind` is the trimmed, lowered kind of the callback
  unfoldable pub replay_one : String → A → S → Metrics → S × Result Metrics
  replay_one kind x s m =
      let m' = record m { fetched = m.fetched + 1 } in
      let (s', r) =
        invoke "replay_callback, process_callback_replay"
          (first_method svc.item_method svc.item_fallback) x s in
      if one_of kind known_event_kinds
      then (
        s',
        ok (tally str_exc "callback_replay_failed" r (record m' { replayed = m'.replayed + 1 })),
      )
      else after_report (count_unknown kind m') (report x s)

  abbrev pub then_each :
      (S → Metrics → S × Result Metrics) → S × Result Metrics → S × Result Metrics
  then_each rest (s, raised e) = (s, raised e)
  then_each rest (s, ok m) = rest s m

  abbrev pub replayed_all : S × Result Metrics → S × Result TaskResult
  replayed_all (s, raised e) = (s, raised e)
  replayed_all (s, ok m) = (s, ok (finished m))

  module _ (c : Casing) (kind_of : A → String) where
    abbrev pub callback_kind : A → String
    callback_kind x = or_text (c.lower (c.strip (kind_of x))) "unknown"

    unfoldable pub replay_each : List A → S → Metrics → S × Result Metrics
    unfolding replay_one
    replay_each [] s m = (s, ok m)
    replay_each (x ∷ xs) s m = then_each (replay_each xs) (replay_one (callback_kind x) x s m)

    abbrev pub replay_items : List A → S → S × Result TaskResult
    replay_items xs s = replayed_all (replay_each xs s no_metrics)

    unfoldable pub callback_replay : Q → S → S × Result TaskResult
    unfolding replay_each
    callback_replay query s =
        run_listed replay_items (list_items "list_replay_callbacks, fetch_replay_callbacks" query s)
