-- ===== src/VirtualGoods/Scheduler/Counters.antt =====
-- What the counters of the tasks of src/modules/virtual_goods/scheduler.py say of the items that the
-- service lists.
use realxianyu.Base.{
  ℕ, suc, ◌+◌, ◌≡◌, ◌↔◌, refl, Bool, true, false, not, List, [], ◌∷◌, String, arith, or_text,
}
use realxianyu.Base.Result.{
  Error, value_error, bad_code, integrity_error, decode_error, type_error, attribute_error, Result,
  ok, raised,
}
use realxianyu.Base.Lists.{length, length-append}
use realxianyu.Base.Table.{count_where}
use realxianyu.VirtualGoods.Scheduler.{
  Service, Outcome, Metrics, no_metrics, TaskResult, tally, finished, invoke, first_method,
  each_item, list_items, run_items, timeout_scan, manual_takeover_observe, run_listed,
}

-- each failure has its error
abbrev pub ErrorsCounted : Metrics → Type 0
ErrorsCounted m = length m.errors ≡ m.failed

-- from the metrics `m` to `m'` by `n` items, of which `good` ended well and `bad` did not
pub record Progress (m m' : Metrics) (n good bad : ℕ) : Type 0 where
  pub all_fetched : m'.fetched ≡ m.fetched + n
  pub all_succeeded : m'.succeeded ≡ m.succeeded + good
  pub all_failed : m'.failed ≡ m.failed + bad
  pub errors_counted : ErrorsCounted m → ErrorsCounted m'

-- an item ends well unless its method raises or says that it failed
abbrev pub ended_well : Result Outcome → Bool
ended_well (raised e) = false
ended_well (ok o) = not o.is_failure

-- The items one after the other, each on the state that the one before has left, and how each ended.
unfoldable pub run_each : {S A : Type 0} → (A → S → S × Bool) → List A → S → S × List Bool
run_each f [] s = (s, [])
run_each f (x ∷ xs) s = let (s', b) = f x s in let (s'', bs) = run_each f xs s' in (s'', b ∷ bs)

abbrev pub well : List Bool → ℕ
well bs = count_where (λ b. b) bs

abbrev pub badly : List Bool → ℕ
badly bs = count_where not bs

pub tally-Progress :
    (str_exc : Error → String) (fallback : String) (m : Metrics) (r : Result Outcome)
    → Progress m
        (tally str_exc fallback r (record m { fetched = m.fetched + 1 }))
        1
        (well (ended_well r ∷ []))
        (badly (ended_well r ∷ []))
unfolding count_where
tally-Progress str_exc fallback m (raised e) = record {
  all_fetched = refl;
  all_succeeded = omega arith;
  all_failed = omega arith;
  errors_counted = λ b. omega (arith, length-append m.errors (str_exc e ∷ []), b);
}
tally-Progress str_exc fallback m (ok o) =
    let counted = length-append m.errors (or_text o.error fallback ∷ []) in
    record {
      all_fetched = ground arith;
      all_succeeded = ground arith;
      all_failed = ground arith;
      errors_counted = λ b. ground (arith, counted, b);
    }

pub Progress-trans :
    (m m' m'' : Metrics) (n : ℕ) (b : Bool) (bs : List Bool)
    → Progress m m' 1 (well (b ∷ [])) (badly (b ∷ []))
    → Progress m' m'' n (well bs) (badly bs)
    → Progress m m'' (suc n) (well (b ∷ bs)) (badly (b ∷ bs))
unfolding count_where
Progress-trans m m' m'' n b bs p q = record {
  all_fetched = omega (arith, p.all_fetched, q.all_fetched);
  all_succeeded = ground (arith, p.all_succeeded, q.all_succeeded);
  all_failed = ground (arith, p.all_failed, q.all_failed);
  errors_counted = λ h. q.errors_counted (p.errors_counted h);
}

-- What a task reports of `n` items, of which some ended well and some did not.
pub record Truthful (n : ℕ) (bs : List Bool) (r : TaskResult) : Type 0 where
  pub all_fetched : r.metrics.fetched ≡ n
  pub all_succeeded : r.metrics.succeeded ≡ well bs
  pub all_failed : r.metrics.failed ≡ badly bs
  pub errors_counted : length r.metrics.errors ≡ badly bs
  pub ok_iff_none_failed : (r.is_ok ≡ true) ↔ (badly bs ≡ 0)

pub Truthful-finished :
    (n : ℕ) (bs : List Bool) (m : Metrics)
    → Progress no_metrics m n (well bs) (badly bs)
    → Truthful n bs (finished m)
Truthful-finished n bs m p = record {
  all_fetched = omega (arith, p.all_fetched);
  all_succeeded = omega (arith, p.all_succeeded);
  all_failed = omega (arith, p.all_failed);
  errors_counted = omega (arith, p.errors_counted refl, p.all_failed);
  ok_iff_none_failed = ground (arith, p.all_failed);
}

-- a task that got no list: it has done nothing, and has the one error
pub record Unlisted (e : String) (r : TaskResult) : Type 0 where
  pub not_ok : r.is_ok ≡ false
  pub nothing_done : r.metrics ≡ record no_metrics { errors = e ∷ [] }

module _ {S Q A : Type 0} (str_exc : Error → String) (svc : Service S Q A) where
  -- From what the list of the service left and returned to what the task leaves and returns: what
  -- the list raises is raised again or reported, and nothing else is raised.
  abbrev pub Ends :
      (List A → S → S → TaskResult → Type 0) → S × Result (List A) → S × Result TaskResult → Type 0
  Ends P (s, raised e) (t, raised e') = (t ≡ s) × (e' ≡ e)
  Ends P (s, raised e) (t, ok r) = (t ≡ s) × Unlisted (str_exc e) r
  Ends P (s, ok xs) (t, raised e) = ⊥
  Ends P (s, ok xs) (t, ok r) = P xs s t r

  pub run_listed-Ends :
      (P : List A → S → S → TaskResult → Type 0) (each : List A → S → S × Result TaskResult)
      (l : S × Result (List A))
      → ((xs : List A) (s : S) → Ends P (s, ok xs) (each xs s))
      → Ends P l (run_listed str_exc svc each l)
  run_listed-Ends P each (s, raised (value_error e)) h = (refl, refl)
  run_listed-Ends P each (s, raised (bad_code e n)) h = (refl, refl)
  run_listed-Ends P each (s, raised (integrity_error e)) h = (refl, refl)
  run_listed-Ends P each (s, raised decode_error) h = (refl, refl)
  run_listed-Ends P each (s, raised (type_error e)) h = (refl, refl)
  run_listed-Ends P each (s, raised (attribute_error e)) h =
      (refl, record { not_ok = refl; nothing_done = refl })
  run_listed-Ends P each (s, ok xs) h = h xs s

  -- the method of the items, and whether the item ended well
  abbrev pub item_step : String → A → S → S × Bool
  item_step names x s =
      let (s', r) = invoke names (first_method svc.item_method svc.item_fallback) x s in
      (s', ended_well r)

  each_item-run_each :
      (names fallback : String) (xs : List A) (s : S) (m : Metrics)
      → (let (t, m') = each_item str_exc svc names fallback xs s m in
          let (t', bs) = run_each (item_step names) xs s in
          (t ≡ t') × Progress m m' (length xs) (well bs) (badly bs))
  unfolding each_item run_each count_where
  each_item-run_each names fallback [] s m = (
    refl,
    record {
      all_fetched = omega arith;
      all_succeeded = omega arith;
      all_failed = omega arith;
      errors_counted = λ h. h;
    },
  )
  each_item-run_each names fallback (x ∷ xs) s m =
      let (s', r) = invoke names (first_method svc.item_method svc.item_fallback) x s in
      let m' = tally str_exc fallback r (record m { fetched = m.fetched + 1 }) in
      let (same, rest) = each_item-run_each names fallback xs s' m' in
      let bs = (run_each (item_step names) xs s').1 in
      (
        same,
        Progress-trans m m' _ (length xs) (ended_well r) bs (tally-Progress str_exc fallback m r)
            rest,
      )

  -- the items were handled one after the other, and the result says how they ended
  abbrev pub Handled : String → List A → S → S → TaskResult → Type 0
  Handled names xs s t r =
      let (t', bs) = run_each (item_step names) xs s in (t ≡ t') × Truthful (length xs) bs r

  run_items-Handled :
      (names fallback : String) (xs : List A) (s : S)
      → Ends (Handled names) (s, ok xs) (run_items str_exc svc names fallback xs s)
  run_items-Handled names fallback xs s =
      let (same, p) = each_item-run_each names fallback xs s no_metrics in
      (same, Truthful-finished (length xs) _ _ p)

  -- `timeout_scan` and `manual_takeover_observe` call the item's method once for each item of the
  -- list, in its order, each on the state that the one before has left, whatever the calls return or
  -- raise and whichever methods are missing. The result counts as many items as the list has, those
  -- that ended well as successes and the others as failed with one error each, and is a success
  -- exactly when none failed. If the list raises, no item is touched, and the exception is raised
  -- again or is the one error of the result.
  pub each_item-Truthful :
      (query : Q) (s : S)
      → Ends
          (Handled "resolve_timeout_order, handle_timeout_order")
          (list_items str_exc svc "list_timeout_candidates, scan_timeout_orders" query s)
          (timeout_scan str_exc svc query s)
        × Ends
            (Handled "observe_manual_takeover_order, observe_manual_takeover")
            (list_items str_exc svc "list_manual_takeover_orders, fetch_manual_takeover_orders"
              query s)
            (manual_takeover_observe str_exc svc query s)
  unfolding timeout_scan manual_takeover_observe
  each_item-Truthful query s = (
    run_listed-Ends (Handled "resolve_timeout_order, handle_timeout_order")
        (run_items str_exc svc "resolve_timeout_order, handle_timeout_order"
          "timeout_resolve_failed")
        (list_items str_exc svc "list_timeout_candidates, scan_timeout_orders" query s)
        (run_items-Handled "resolve_timeout_order, handle_timeout_order" "timeout_resolve_failed"),
    run_listed-Ends (Handled "observe_manual_takeover_order, observe_manual_takeover")
        (run_items str_exc svc "observe_manual_takeover_order, observe_manual_takeover"
          "manual_observe_failed")
        (list_items str_exc svc "list_manual_takeover_orders, fetch_manual_takeover_orders" query s)
        (run_items-Handled "observe_manual_takeover_order, observe_manual_takeover"
          "manual_observe_failed"),
  )
