-- ===== src/VirtualGoods/Callbacks/Lease.antt =====
-- The lease of a callback in src/modules/virtual_goods/store.py: claim_callback_lease, its release,
-- claim_callback, which claims the oldest callback, and mark_callback_processed.
use realxianyu.Base.{
  ℕ, ◌+◌, Bool, true, false, not, ◌&&◌, Option, none, some, List, [], ◌∷◌, String, leb, ◌==◌,
  string_eq, nat_eq, if◌then◌else◌, Casing, or_text, or_empty, nonempty,
}
use realxianyu.Base.Table.{update_where, count_where, find_where, select_where}
use realxianyu.VirtualGoods.Rows.{Callback, VirtualGoodsStore}

-- claim_expires_at IS NULL OR claim_expires_at <= now
abbrev pub lease_free : ℕ → Option ℕ → Bool
lease_free now none = true
lease_free now (some t) = leb t now

abbrev pub same_flag : Bool → Bool → Bool
same_flag true b = b
same_flag false b = not b

-- the filter AND processed = ?, which None leaves out
abbrev pub processed_is : Option Bool → Callback → Bool
processed_is none r = true
processed_is (some b) r = same_flag r.processed b

abbrev pub has_callback_id : ℕ → Callback → Bool
has_callback_id i r = r.id == i

-- the row may be claimed at `now`
abbrev pub is_claimable : ℕ → Option Bool → Callback → Bool
is_claimable now filter r =
    r.verify_passed && lease_free now r.claim_expires_at && processed_is filter r

abbrev pub claimer_or_default : Casing → Option String → VirtualGoodsStore → String
claimer_or_default c claimer s =
    or_text (c.strip (or_text (or_empty claimer) s.callback_claimer_id)) s.callback_claimer_id

-- the UPDATE that takes the lease until `expires`
abbrev pub lease_to : String → ℕ → ℕ → Callback → Callback
lease_to claimer now expires r = record r {
  claimed_by = some claimer;
  claimed_at = some now;
  claim_expires_at = some expires;
  attempt_count = r.attempt_count + 1;
  last_process_error = none;
}

unfoldable pub claim_callback_lease :
    Casing → ℕ → ℕ → ℕ → Option Bool → Option String → VirtualGoodsStore → VirtualGoodsStore × Bool
unfolding update_where count_where
claim_callback_lease c now later i filter claimer s = (
  record s {
    callbacks =
        update_where (λ r. has_callback_id i r && is_claimable now filter r)
          (lease_to (claimer_or_default c claimer s) now (later + s.callback_lease_ttl_sec))
          s.callbacks;
  },
  count_where (λ r. has_callback_id i r && is_claimable now filter r) s.callbacks == 1,
)

-- claimed_by IS NULL OR claimed_by = claimer
abbrev pub free_or_mine : String → Option String → Bool
free_or_mine claimer none = true
free_or_mine claimer (some other) = other == claimer

abbrev pub unclaimed : Callback → Callback
unclaimed r = record r { claimed_by = none; claimed_at = none; claim_expires_at = none }

unfoldable pub reclaim_callback_lease :
    Casing → ℕ → Option String → VirtualGoodsStore → VirtualGoodsStore × Bool
unfolding update_where count_where
reclaim_callback_lease c i claimer s =
    let mine = λ (r : Callback).
      has_callback_id i r && free_or_mine (claimer_or_default c claimer s) r.claimed_by in
    (
      record s { callbacks = update_where mine unclaimed s.callbacks },
      count_where mine s.callbacks == 1,
    )

-- the first row of ORDER BY created_at ASC, id ASC
abbrev pub older : Callback → Option Callback → Callback
older r none = r
older r (some q) = if leb r.created_at q.created_at then r else q

unfoldable pub oldest : List Callback → Option Callback
oldest [] = none
oldest (r ∷ rs) = some (older r (oldest rs))

unfoldable pub get_callback : ℕ → VirtualGoodsStore → Option Callback
unfolding find_where
get_callback i s = find_where (has_callback_id i) s.callbacks

unfoldable pub claim_found :
    Casing
    → ℕ
    → ℕ
    → Bool
    → Option String
    → VirtualGoodsStore
    → Option Callback
    → VirtualGoodsStore × Option Callback
unfolding update_where count_where get_callback
claim_found c now later processed claimer s none = (s, none)
claim_found c now later processed claimer s (some row) =
    let still_free = λ (r : Callback).
      has_callback_id row.id r
      && r.verify_passed
      && same_flag r.processed processed
      && lease_free now r.claim_expires_at in
    let s' = record s {
      callbacks =
          update_where still_free
            (lease_to (claimer_or_default c claimer s) now (later + s.callback_lease_ttl_sec))
            s.callbacks;
    } in
    if count_where still_free s.callbacks == 1 then (s', get_callback row.id s') else (s', none)

unfoldable pub claim_callback :
    Casing → ℕ → ℕ → Bool → Option String → VirtualGoodsStore → VirtualGoodsStore × Option Callback
unfolding oldest select_where claim_found
claim_callback c now later processed claimer s =
    claim_found c now later processed claimer s
      (oldest (select_where (is_claimable now (some processed)) s.callbacks))

-- the row as the UPDATE of `mark_callback_processed` leaves it
abbrev pub marked : ℕ → Bool → String → Callback → Callback
marked now processed last_error r = record (unclaimed r) {
  processed = processed;
  processed_at = if processed then some now else none;
  last_process_error = nonempty last_error;
}

unfoldable pub mark_callback_processed :
    ℕ → ℕ → Bool → String → VirtualGoodsStore → VirtualGoodsStore
unfolding update_where
mark_callback_processed now i processed last_error s = record s {
  callbacks = update_where (has_callback_id i) (marked now processed last_error) s.callbacks;
}
