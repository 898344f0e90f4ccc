-- ===== src/VirtualGoods/Scheduler/Replay.antt =====
-- What `callback_replay` of src/modules/virtual_goods/scheduler.py does with the callbacks that the
-- service lists.
use realxianyu.Base.{
  ℕ, ◌+◌, ◌≡◌, refl, subst, Bool, true, false, not, List, [], ◌∷◌, String, arith, one_of, Casing,
  text_append, if◌then◌else◌,
}
use realxianyu.Base.Result.{Error, Result, ok, raised}
use realxianyu.Base.Lists.{length, length-append}
use realxianyu.Base.Table.{count_where}
use realxianyu.VirtualGoods.Scheduler.{
  Service, Metrics, no_metrics, TaskResult, tally, invoke, first_method, list_items, report,
  after_report, known_event_kinds, replay_one, replay_each, callback_replay, then_each,
  callback_kind, count_unknown, replayed_all, replay_items,
}
use realxianyu.VirtualGoods.Scheduler.Counters.{
  Progress, run_each, well, badly, tally-Progress, Progress-trans, Truthful, Truthful-finished,
  Ends, run_listed-Ends, item_step,
}

-- from the metrics `m` to `m'` by the replay of `known` callbacks and by `unknown` others
pub record Sorted (m m' : Metrics) (known unknown : ℕ) : Type 0 where
  pub all_replayed : m'.replayed ≡ m.replayed + known
  pub all_unknown : m'.unknown_event_kind ≡ m.unknown_event_kind + unknown

abbrev pub Returns : {B : Type 0} → (B → Type 0) → Result B → Type 0
Returns P (raised e) = ⊥
Returns P (ok r) = P r

module _ {S Q A : Type 0} (str_exc : Error → String) (svc : Service S Q A) (c : Casing)
    (kind_of : A → String) where
  abbrev pub is_known : A → Bool
  is_known x = one_of (callback_kind str_exc svc c kind_of x) known_event_kinds

  abbrev pub is_unknown : A → Bool
  is_unknown x = not (is_known x)

  -- a callback of a known kind is replayed, any other is reported and counts as failed
  abbrev pub step_of : Bool → A → S → S × Bool
  step_of known x s =
      if known
      then item_step str_exc svc "replay_callback, process_callback_replay" x s
      else ((report str_exc svc x s).0, false)

  abbrev pub replay_step : A → S → S × Bool
  replay_step x s = step_of (is_known x) x s

  -- the reporter, where there is one, does not raise
  abbrev pub ReporterReturns : Type 0
  ReporterReturns = (x : A) (t : S) → Returns (λ _. Unit) (report str_exc svc x t).1

  -- what the loop has done with `xs`
  abbrev Replays : List A → S → Metrics → S × Result Metrics → Type 0
  Replays xs s m (t, raised e) = ⊥
  Replays xs s m (t, ok m') =
      let (t', bs) = run_each replay_step xs s in
      (t ≡ t')
      × Progress m m' (length xs) (well bs) (badly bs)
      × Sorted m m' (count_where is_known xs) (count_where is_unknown xs)

  -- what one pass of it has done
  abbrev Passes : Bool → A → S → Metrics → S × Result Metrics → Type 0
  Passes known x s m (t, raised e) = ⊥
  Passes known x s m (t, ok m') =
      let (t', b) = step_of known x s in
      (t ≡ t')
      × Progress m m' 1 (well (b ∷ [])) (badly (b ∷ []))
      × Sorted m m' (if known then 1 else 0) (if not known then 1 else 0)

  unknown-Progress :
      (kind : String) (m : Metrics)
      → Progress m
          (count_unknown str_exc svc kind (record m { fetched = m.fetched + 1 }))
          1
          (well (false ∷ []))
          (badly (false ∷ []))
  unfolding count_where
  unknown-Progress kind m =
      let counted = length-append m.errors (text_append "unknown event_kind: " kind ∷ []) in
      record {
        all_fetched = refl;
        all_succeeded = omega arith;
        all_failed = omega arith;
        errors_counted = λ h. omega (arith, counted, h);
      }

  after_report-Passes :
      (x : A) (s : S) (m : Metrics) (r : S × Result Bool)
      → r.0 ≡ (report str_exc svc x s).0
      → Returns (λ _. Unit) r.1
      → Passes false x s m (
          after_report str_exc svc
            (count_unknown str_exc svc
              (callback_kind str_exc svc c kind_of x)
              (record m { fetched = m.fetched + 1 }))
            r)
  after_report-Passes x s m (t, raised e) same quiet = absurd quiet
  after_report-Passes x s m (t, ok b) same quiet = (
    same,
    unknown-Progress (callback_kind str_exc svc c kind_of x) m,
    record { all_replayed = omega arith; all_unknown = omega arith },
  )

  tally-Sorted :
      (m : Metrics) (r : _)
      → Sorted m
          (tally str_exc "callback_replay_failed" r
            (record m { fetched = m.fetched + 1; replayed = m.replayed + 1 }))
          1
          0
  tally-Sorted m (raised e) = record { all_replayed = omega arith; all_unknown = omega arith }
  tally-Sorted m (ok o) = record { all_replayed = ground arith; all_unknown = ground arith }

  replayed-Passes :
      (x : A) (s : S) (m : Metrics)
      → (let (t, r) =
            invoke "replay_callback, process_callback_replay"
              (first_method svc.item_method svc.item_fallback)
              x
              s in
          Passes true x s m (
            t,
            ok (
                tally str_exc "callback_replay_failed" r
                  (record m { fetched = m.fetched + 1; replayed = m.replayed + 1 })),
          ))
  replayed-Passes x s m =
      let r =
        (invoke "replay_callback, process_callback_replay"
          (first_method svc.item_method svc.item_fallback) x s).1 in
      let p =
        tally-Progress str_exc "callback_replay_failed" (record m { replayed = m.replayed + 1 })
          r in
      (
        refl,
        record {
          all_fetched = p.all_fetched;
          all_succeeded = p.all_succeeded;
          all_failed = p.all_failed;
          errors_counted = p.errors_counted;
        },
        tally-Sorted m r,
      )

  replay_one-Passes :
      ReporterReturns
      → (x : A) (s : S) (m : Metrics)
      → Passes
          (is_known x)
          x
          s
          m
          (replay_one str_exc svc (callback_kind str_exc svc c kind_of x) x s m)
  unfolding replay_one
  replay_one-Passes quiet x s m =
      elim (is_known x)
        as (λ known. Passes known x s m (
          let (t, r) =
            invoke "replay_callback, process_callback_replay"
              (first_method svc.item_method svc.item_fallback) x s in
          if known
          then (
            t,
            ok (
                tally str_exc "callback_replay_failed" r
                  (record m { fetched = m.fetched + 1; replayed = m.replayed + 1 })),
          )
          else after_report str_exc svc
              (count_unknown str_exc svc (callback_kind str_exc svc c kind_of x)
                (record m { fetched = m.fetched + 1 }))
              (report str_exc svc x s))) [
                | true ↦ replayed-Passes x s m
                | false ↦ after_report-Passes x s m (report str_exc svc x s) refl (quiet x s)
              ]

  Replays-cons :
      (x : A) (xs : List A) (s : S) (m m' : Metrics)
      → (let (t, b) = replay_step x s in
          Progress m m' 1 (well (b ∷ [])) (badly (b ∷ []))
          → Sorted m m' (if is_known x then 1 else 0) (if not (is_known x) then 1 else 0)
          → (r : S × Result Metrics) → Replays xs t m' r
          → Replays (x ∷ xs) s m r)
  unfolding run_each count_where
  Replays-cons x xs s m m' p o (t, raised e) h = h
  Replays-cons x xs s m m' p o (t, ok m'') (same, q, u) = (
    same,
    Progress-trans m m' m'' (length xs) (replay_step x s).1
        (run_each replay_step xs (replay_step x s).0).1 p q,
    record {
      all_replayed = ground (arith, o.all_replayed, u.all_replayed);
      all_unknown = ground (arith, o.all_unknown, u.all_unknown);
    },
  )

  then_each-Replays :
      (x : A) (xs : List A) (s : S) (m : Metrics) (r : S × Result Metrics)
      → ((t : S) (m' : Metrics) → Replays xs t m' (replay_each str_exc svc c kind_of xs t m'))
      → Passes (is_known x) x s m r
      → Replays (x ∷ xs) s m (then_each str_exc svc (replay_each str_exc svc c kind_of xs) r)
  then_each-Replays x xs s m (t, raised e) h k = absurd k
  then_each-Replays x xs s m (t, ok m') h (same, p, o) =
      Replays-cons x xs s m m' p o (replay_each str_exc svc c kind_of xs t m')
        (subst (λ u. Replays xs u m' (replay_each str_exc svc c kind_of xs t m')) same (h t m'))

  replay_each-Replays :
      ReporterReturns
      → (xs : List A) (s : S) (m : Metrics)
      → Replays xs s m (replay_each str_exc svc c kind_of xs s m)
  unfolding replay_each run_each count_where
  replay_each-Replays quiet [] s m = (
    refl,
    record {
      all_fetched = omega arith;
      all_succeeded = omega arith;
      all_failed = omega arith;
      errors_counted = λ h. h;
    },
    record { all_replayed = omega arith; all_unknown = omega arith },
  )
  replay_each-Replays quiet (x ∷ xs) s m =
      then_each-Replays x xs s m
        (replay_one str_exc svc (callback_kind str_exc svc c kind_of x) x s m)
        (λ t m'. replay_each-Replays quiet xs t m') (replay_one-Passes quiet x s m)

  -- the callbacks were handled one after the other, and the result says how they ended
  abbrev pub Accounted : List A → S → S → TaskResult → Type 0
  Accounted xs s t r =
      let (t', bs) = run_each replay_step xs s in
      (t ≡ t')
      × Truthful (length xs) bs r
      × (r.metrics.replayed ≡ count_where is_known xs)
      × (r.metrics.unknown_event_kind ≡ count_where is_unknown xs)

  replayed_all-Ends :
      (xs : List A) (s : S) (r : S × Result Metrics)
      → Replays xs s no_metrics r
      → Ends str_exc svc Accounted (s, ok xs) (replayed_all str_exc svc r)
  replayed_all-Ends xs s (t, raised e) h = h
  replayed_all-Ends xs s (t, ok m) (same, p, o) = (
    same,
    Truthful-finished (length xs) _ m p,
    omega (arith, o.all_replayed),
    omega (arith, o.all_unknown),
  )

  -- Where the anomaly reporter does not raise, `callback_replay` takes the callbacks of the list one
  -- after the other, each on the state that the one before has left: a callback of a known kind is
  -- handed to the replay method, any other is reported and counts as failed. The result counts as
  -- many callbacks as the list has, how many were replayed, of an unknown kind, ended well and failed,
  -- with one error for each that failed, and is a success exactly when none failed. If the list
  -- raises, no callback is touched, and the exception is raised again or is the one error of the
  -- result.
  pub callback_replay-Accounted :
      ReporterReturns
      → (query : Q) (s : S)
      → Ends str_exc svc Accounted
          (list_items str_exc svc "list_replay_callbacks, fetch_replay_callbacks" query s)
          (callback_replay str_exc svc c kind_of query s)
  unfolding callback_replay
  callback_replay-Accounted quiet query s =
      run_listed-Ends str_exc svc Accounted (replay_items str_exc svc c kind_of)
        (list_items str_exc svc "list_replay_callbacks, fetch_replay_callbacks" query s)
        (λ xs t.
          replayed_all-Ends xs t (replay_each str_exc svc c kind_of xs t no_metrics)
            (replay_each-Replays quiet xs t no_metrics))
