-- ===== src/VirtualGoods/Callbacks/Refine.antt =====
-- The lease of a callback as a lock, which forgets everything else that its row holds, and the
-- statements of src/modules/virtual_goods/store.py as operations on the locks of all ids.
use mathlib.Core.Path.{fun_ext}
use mathlib.Core.Option
use realxianyu.Base.{
  ℕ, ◌+◌, ◌≡◌, refl, ◌∙◌, ap, Bool, true, false, ◌&&◌, Option, none, some, List, [], ◌∷◌, String,
  arith, ◌==◌, nat_eq, string_eq, if◌then◌else◌, Option-cases, inl, inr, Casing, or_text, or_empty,
}
use realxianyu.Base.Table.{update_where, find_where, count_where}
use realxianyu.VirtualGoods.Rows.{Callback, VirtualGoodsStore}
use realxianyu.VirtualGoods.Callbacks.Lease.{
  has_callback_id, lease_free, same_flag, is_claimable, claimer_or_default, claim_callback_lease,
  free_or_mine, unclaimed, reclaim_callback_lease, get_callback, mark_callback_processed, marked,
}
use realxianyu.VirtualGoods.Callbacks.Invariant.{
  callback_id, CallbacksValid, claim_callback_lease-CallbacksValid,
  reclaim_callback_lease-CallbacksValid, mark_callback_processed-CallbacksValid,
}
use realxianyu.VirtualGoods.Callbacks.ById.{count_where-found, find_where-update_id}

-- whether the callback may be claimed at all, who holds it until when, and how often it was claimed
pub record Lock : Type 0 where
  pub verified : Bool
  pub done : Bool
  pub holder : Option String
  pub until : Option ℕ
  pub attempts : ℕ

abbrev pub lock_of : Callback → Lock
lock_of r = record {
  verified = r.verify_passed;
  done = r.processed;
  holder = r.claimed_by;
  until = r.claim_expires_at;
  attempts = r.attempt_count;
}

-- the lock of each id that has a row
abbrev pub Locks : Type 0
Locks = ℕ → Option Lock

abbrev pub locks : VirtualGoodsStore → Locks
locks s j = Option.map lock_of (get_callback j s)

pub data Op : Type 0 where
  claim : (now later i : ℕ) (filter : Option Bool) (claimer : Option String) → Op
  reclaim : (i : ℕ) (claimer : Option String) → Op
  mark : (now i : ℕ) (processed : Bool) (last_error : String) → Op

-- the operation on the store, with what it returns
abbrev pub step : Casing → Op → VirtualGoodsStore → VirtualGoodsStore × Bool
step c (claim now later i filter claimer) s = claim_callback_lease c now later i filter claimer s
step c (reclaim i claimer) s = reclaim_callback_lease c i claimer s
step c (mark now i processed last_error) s =
    (mark_callback_processed now i processed last_error s, true)

abbrev pub allows : Option Bool → Bool → Bool
allows none b = true
allows (some f) b = same_flag b f

abbrev pub can_take : ℕ → Option Bool → Lock → Bool
can_take now filter l = l.verified && lease_free now l.until && allows filter l.done

abbrev pub can_drop : String → Lock → Bool
can_drop me l = free_or_mine me l.holder

abbrev pub on_lock : (Lock → Bool) → Option Lock → Bool
on_lock p none = false
on_lock p (some l) = p l

-- the lock of `i` is changed where the condition holds
abbrev pub changed_at : ℕ → (Lock → Bool) → (Lock → Lock) → Locks → Locks
changed_at i p f m j = if i == j then Option.map (λ l. if p l then f l else l) (m j) else m j

module _ (c : Casing) (ttl : ℕ) (default : String) where
  abbrev pub named : Option String → String
  named claimer = or_text (c.strip (or_text (or_empty claimer) default)) default

  -- the specification: a lock is taken when it is free, and dropped by its holder
  abbrev pub act : Op → Locks → Locks × Bool
  act (claim now later i filter claimer) m = (
    changed_at i (can_take now filter)
        (λ l. record l {
          holder = some (named claimer);
          until = some (later + ttl);
          attempts = l.attempts + 1;
        })
        m,
    on_lock (can_take now filter) (m i),
  )
  act (reclaim i claimer) m = (
    changed_at i (can_drop (named claimer)) (λ l. record l { holder = none; until = none }) m,
    on_lock (can_drop (named claimer)) (m i),
  )
  act (mark now i processed last_error) m = (
    changed_at i (λ _. true) (λ l. record l { done = processed; holder = none; until = none }) m,
    true,
  )

  abbrev pub replay : List Op → Locks → Locks × List Bool
  replay [] m = (m, [])
  replay (op ∷ ops) m = let (m', b) = act op m in let (m'', bs) = replay ops m' in (m'', b ∷ bs)

unfoldable pub run : Casing → List Op → VirtualGoodsStore → VirtualGoodsStore × List Bool
run c [] s = (s, [])
run c (op ∷ ops) s = let (s', b) = step c op s in let (s'', bs) = run c ops s' in (s'', b ∷ bs)

-- an UPDATE … WHERE id = i AND p on the rows is the same change of the lock
locks-update :
    (i : ℕ) (p : Callback → Bool) (f : Callback → Callback) (q : Lock → Bool) (g : Lock → Lock)
    (s : VirtualGoodsStore)
    → ((r : Callback) → callback_id (f r) ≡ callback_id r)
    → ((r : Callback) → p r ≡ q (lock_of r))
    → ((r : Callback) → lock_of (f r) ≡ g (lock_of r))
    → locks (record s { callbacks = update_where (λ r. has_callback_id i r && p r) f s.callbacks })
      ≡ changed_at i q g (locks s)
unfolding get_callback
locks-update i p f q g s keeps same changes = fun_ext (λ j.
    elim (Option-cases (find_where (has_callback_id j) s.callbacks)) [
      | inl e ↦ ground (arith, find_where-update_id i p f j s.callbacks keeps, e)
      | inr (r, e) ↦
          ground (arith, find_where-update_id i p f j s.callbacks keeps, e, same r, changes r)
    ])

-- and its rowcount is 1 exactly when the lock meets the condition
count_where-lock :
    (i : ℕ) (p : Callback → Bool) (q : Lock → Bool) (s : VirtualGoodsStore)
    → CallbacksValid s
    → ((r : Callback) → p r ≡ q (lock_of r))
    → (count_where (λ r. has_callback_id i r && p r) s.callbacks == 1) ≡ on_lock q (locks s i)
unfolding get_callback
count_where-lock i p q s v same = elim (Option-cases (find_where (has_callback_id i) s.callbacks)) [
  | inl e ↦ ground (arith, count_where-found i p s.callbacks v.ids_ascend, e)
  | inr (r, e) ↦ ground (arith, count_where-found i p s.callbacks v.ids_ascend, e, same r)
]

and_true : (b : Bool) → b ≡ (b && true)
and_true true = refl
and_true false = refl

is_claimable-lock :
    (now : ℕ) (filter : Option Bool) (r : Callback)
    → is_claimable now filter r ≡ can_take now filter (lock_of r)
is_claimable-lock now none r = refl
is_claimable-lock now (some b) r = refl

module _ (c : Casing) where
  step-locks :
      (op : Op) (s : VirtualGoodsStore)
      → CallbacksValid s
      → let (m, b) = act c s.callback_lease_ttl_sec s.callback_claimer_id op (locks s) in
        (locks (step c op s).0 ≡ m) × ((step c op s).1 ≡ b)
  unfolding claim_callback_lease reclaim_callback_lease mark_callback_processed
  step-locks (claim now later i filter claimer) s v =
      let same = λ (r : Callback). is_claimable-lock now filter r in
      (
        locks-update i (is_claimable now filter) _ (can_take now filter) _ s (λ r. refl) same
            (λ r. refl),
        count_where-lock i (is_claimable now filter) (can_take now filter) s v same,
      )
  step-locks (reclaim i claimer) s v =
      let me = claimer_or_default c claimer s in
      (
        locks-update i (λ r. free_or_mine me r.claimed_by) unclaimed (can_drop me) _ s (λ r. refl)
            (λ r. refl) (λ r. refl),
        count_where-lock i (λ r. free_or_mine me r.claimed_by) (can_drop me) s v (λ r. refl),
      )
  step-locks (mark now i processed last_error) s v = (
    ap
          (λ w.
            locks (record s {
              callbacks = update_where w (marked now processed last_error) s.callbacks;
            }))
          (fun_ext (λ r. and_true (has_callback_id i r)))
        ∙ locks-update i (λ _. true) (marked now processed last_error) (λ _. true) _ s (λ r. refl)
            (λ r. refl) (λ r. refl),
    refl,
  )

  step-CallbacksValid :
      (op : Op) (s : VirtualGoodsStore) → CallbacksValid s → CallbacksValid (step c op s).0
  step-CallbacksValid (claim now later i filter claimer) s v =
      claim_callback_lease-CallbacksValid c s v now later i filter claimer
  step-CallbacksValid (reclaim i claimer) s v =
      reclaim_callback_lease-CallbacksValid c s v i claimer
  step-CallbacksValid (mark now i processed last_error) s v =
      mark_callback_processed-CallbacksValid c s v now i processed last_error

  step-config :
      (op : Op) (s : VirtualGoodsStore)
      → ((step c op s).0.callback_lease_ttl_sec ≡ s.callback_lease_ttl_sec)
        × ((step c op s).0.callback_claimer_id ≡ s.callback_claimer_id)
  unfolding claim_callback_lease reclaim_callback_lease mark_callback_processed
  step-config (claim now later i filter claimer) s = (refl, refl)
  step-config (reclaim i claimer) s = (refl, refl)
  step-config (mark now i processed last_error) s = (refl, refl)

  -- Any sequence of claims, releases and marks, by any number of processes, does to a valid callback
  -- table and returns what the same sequence does on the locks alone: a claim succeeds exactly when
  -- the lock is free, and nothing else that a row holds matters.
  pub run_refines :
      (ops : List Op) (s : VirtualGoodsStore)
      → CallbacksValid s
      → let (m, bs) = replay c s.callback_lease_ttl_sec s.callback_claimer_id ops (locks s) in
        (locks (run c ops s).0 ≡ m) × ((run c ops s).1 ≡ bs)
  unfolding run
  run_refines [] s v = (refl, refl)
  run_refines (op ∷ ops) s v =
      let e = step-locks op s v in
      let ih = run_refines ops (step c op s).0 (step-CallbacksValid op s v) in
      let config = step-config op s in
      let ih' = rw (config.0, config.1) at ih in
      rw (← e.0, ← e.1) (ih'.0, ap (λ bs. (step c op s).1 ∷ bs) ih'.1)
