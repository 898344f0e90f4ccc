-- ===== src/Workflow/Sla/Alerts.antt =====
-- The percentiles of the SLA summary, and the cooldown of an alert.
use realxianyu.Base.{
  ℕ, zero, suc, ◌+◌, ◌-◌, ◌*◌, ◌≤◌, ◌<◌, ◌≡◌, refl, min, max, true, false, List, [], ◌∷◌, String,
  arith, string_eq, eq_iff, Bool-cases, inl, inr, leb, if_both,
}
use realxianyu.Base.Lists.{length, All, All-mono, Pairs}
use realxianyu.Base.Table.{find_where, exists_where}
use realxianyu.Base.Table.Laws.{find_where-append}
use realxianyu.Workflow.Rows.{SlaMessage, WorkflowStore}
use realxianyu.Workflow.Sla.{insert, sorted, item_at, percentile, is_recent_alert, raise_alert_once}

module _ {ℓ} (P : ℕ → Type ℓ) where
  All-insert : (a : ℕ) (xs : List ℕ) → P a → All P xs → All P (insert a xs)
  unfolding insert
  All-insert a [] p h = (p, tt)
  All-insert a (x ∷ xs) p h = if_both (λ l. All P l) (leb a x) (p, h) (h.0, All-insert a xs p h.1)

  All-sorted : (xs : List ℕ) → All P xs → All P (sorted xs)
  unfolding sorted
  All-sorted [] h = tt
  All-sorted (x ∷ xs) h = All-insert x (sorted xs) h.0 (All-sorted xs h.1)

  All-item_at : (xs : List ℕ) (i : ℕ) → i < length xs → All P xs → P (item_at xs i)
  All-item_at [] i lt h = absurd (omega arith)
  All-item_at (x ∷ xs) zero lt h = h.0
  All-item_at (x ∷ xs) (suc i) lt h = All-item_at xs i (omega arith) h.1

length-insert : (a : ℕ) (xs : List ℕ) → length (insert a xs) ≡ suc (length xs)
unfolding insert
length-insert a [] = refl
length-insert a (x ∷ xs) = ground (arith, length-insert a xs)

length-sorted : (xs : List ℕ) → length (sorted xs) ≡ length xs
unfolding sorted
length-sorted [] = refl
length-sorted (x ∷ xs) = omega (arith, length-insert x (sorted xs), length-sorted xs)

-- A percentile of samples is one of them: it has every property that all samples have, whatever the
-- rounding of the index.
pub percentile_sample {ℓ} :
    (P : ℕ → Type ℓ) (scale : ℕ → ℕ) (x : ℕ) (xs : List ℕ)
    → All P (x ∷ xs)
    → P (percentile scale (x ∷ xs))
unfolding percentile
percentile_sample P scale x xs h =
    All-item_at P (sorted (x ∷ xs))
      (min (length (sorted (x ∷ xs)) - 1) (scale (length (sorted (x ∷ xs)) - 1)))
      (omega (arith, length-sorted (x ∷ xs))) (All-sorted P (x ∷ xs) h)

Pairs-insert : (a : ℕ) (xs : List ℕ) → Pairs ◌≤◌ xs → Pairs ◌≤◌ (insert a xs)
unfolding insert
Pairs-insert a [] h = (tt, tt)
Pairs-insert a (x ∷ xs) h = elim (Bool-cases (leb a x)) [
  | inl e ↦
      let le : a ≤ x = ground arith in
      rw e ((le, All-mono (λ y. x ≤ y) (λ y. a ≤ y) xs (λ y k. omega arith) h.0), h)
  | inr e ↦ rw e (All-insert (λ y. x ≤ y) a xs (ground arith) h.0, Pairs-insert a xs h.1)
]

Pairs-sorted : (xs : List ℕ) → Pairs ◌≤◌ (sorted xs)
unfolding sorted
Pairs-sorted [] = tt
Pairs-sorted (x ∷ xs) = Pairs-insert x (sorted xs) (Pairs-sorted xs)

item_at_mono :
    (xs : List ℕ) (i j : ℕ) → Pairs ◌≤◌ xs → i ≤ j → j < length xs → item_at xs i ≤ item_at xs j
item_at_mono [] i j h le lt = absurd (omega arith)
item_at_mono (x ∷ xs) zero zero h le lt = omega arith
item_at_mono (x ∷ xs) zero (suc j) h le lt = All-item_at (λ y. x ≤ y) xs j (omega arith) h.0
item_at_mono (x ∷ xs) (suc i) zero h le lt = absurd (omega arith)
item_at_mono (x ∷ xs) (suc i) (suc j) h le lt = item_at_mono xs i j h.1 (omega arith) (omega arith)

-- A percentile whose index is never above another's is never above it: P50 ≤ P95.
pub percentile_mono :
    (f g : ℕ → ℕ) (xs : List ℕ) → ((n : ℕ) → f n ≤ g n) → percentile f xs ≤ percentile g xs
unfolding percentile
percentile_mono f g [] h = omega arith
percentile_mono f g (x ∷ xs) h =
    let last = length (sorted (x ∷ xs)) - 1 in
    item_at_mono (sorted (x ∷ xs)) (min last (f last)) (min last (g last)) (Pairs-sorted (x ∷ xs))
      (omega (arith, h last)) (omega (arith, length-sorted (x ∷ xs)))

-- An alert that was raised is not raised again while the cutoff has not passed it, whatever its
-- text: within max(1, cooldown) minutes the store stays as it is.
pub raise_alert_once_cooldown :
    (now later now' later' : ℕ) (alert_type title title' : String) (message message' : SlaMessage)
    (cooldown cooldown' : ℕ) (s : WorkflowStore)
    → later' ≤ now + 60 * max 1 cooldown'
    → (raise_alert_once now later alert_type title message cooldown s).1 ≡ true
    → let s' = (raise_alert_once now later alert_type title message cooldown s).0 in
      raise_alert_once now' later' alert_type title' message' cooldown' s' ≡ (s', false)
unfolding raise_alert_once exists_where find_where
raise_alert_once_cooldown now later now' later' alert_type title title' message message' cooldown
      cooldown' s le e =
    ground (
      arith,
      eq_iff alert_type alert_type,
      find_where-append (is_recent_alert later' cooldown' alert_type) s.sla_alerts (
          record { alert_type = alert_type; title = title; message = message; created_at = now }
          ∷ []),
    )
