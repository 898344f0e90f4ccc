-- ===== src/VirtualGoods/Callbacks/Invariant.antt =====
-- What holds of the callback table of src/modules/virtual_goods/store.py between its statements.
use mathlib.Core.List.{map-append}
use realxianyu.Base.{
  ℕ, suc, ◌+◌, ◌<◌, ◌≡◌, refl, Bool, false, not, ◌&&◌, Option, none, some, List, [], ◌∷◌, ◌++◌, map,
  String, arith, ◌==◌, nat_eq, string_eq, Bool-cases, inl, inr, is_some, Casing, or_text, one_of,
  if_both,
}
use realxianyu.Base.Result.{Error, Result, ok, raised}
use realxianyu.Base.Lists.{All, All-append, All-mono, Pairs, Pairs-append_one}
use realxianyu.Base.Table.{update_where, find_where, find_last_where, exists_where}
use realxianyu.Base.Table.Laws.{All-update_where}
use realxianyu.Base.Table.Columns.{map-update_where}
use realxianyu.VirtualGoods.Rows.{Payload, Callback, OpsException, VirtualGoodsStore}
use realxianyu.VirtualGoods.Exceptions.{
  ExceptionKey, is_open_for, severity_of, record_found, record_ops_exception,
}
use realxianyu.VirtualGoods.Orders.{record_order_event}
use realxianyu.VirtualGoods.Callbacks.{
  NewCallback, clashes, event_of, conflicts, new_callback, insert_row, report_unknown_kind,
  unknown_kind_event, unknown_kind_key, unknown_kind_detail, insert_callback, event_key, family_of,
  kind_of, stored_kind, insert_event, event_kinds, source_families,
}
use realxianyu.VirtualGoods.Callbacks.Lease.{
  has_callback_id, is_claimable, claimer_or_default, lease_to, claim_callback_lease, free_or_mine,
  unclaimed, reclaim_callback_lease, mark_callback_processed,
}

abbrev pub callback_id : Callback → ℕ
callback_id r = r.id

-- the events of an earlier and a later row do not clash
abbrev pub EventsDiffer : Option String × Option String → Option String × Option String → Type 0
EventsDiffer old (ext, ded) = clashes ext ded old ≡ false

-- the three columns of a lease are set together, and the time of processing with its flag
pub record RowValid (r : Callback) : Type 0 where
  pub holder_and_expiry : is_some r.claimed_by ≡ is_some r.claim_expires_at
  pub start_and_expiry : is_some r.claimed_at ≡ is_some r.claim_expires_at
  pub processed_time : is_some r.processed_at ≡ r.processed

-- Ids ascend in the order of the table, lie below the counter and are not 0; no two rows store the
-- same event; and every row is valid.
pub record IsValid (rows : List Callback) (next : ℕ) : Type 0 where
  pub ids_ascend : Pairs ◌<◌ (map callback_id rows)
  pub ids_below : All (λ i. i < next) (map callback_id rows)
  pub ids_positive : All (λ i. 0 < i) (map callback_id rows)
  pub next_positive : 0 < next
  pub events_differ : Pairs EventsDiffer (map event_of rows)
  pub rows_valid : All RowValid rows

abbrev pub CallbacksValid : VirtualGoodsStore → Type 0
CallbacksValid s = IsValid s.callbacks s.next_callback_id

-- An UPDATE that leaves ids and events alone and keeps the rows valid keeps the table valid.
pub update_where-IsValid :
    (p : Callback → Bool) (f : Callback → Callback) (rows : List Callback) (next : ℕ)
    → ((r : Callback) → callback_id (f r) ≡ callback_id r)
    → ((r : Callback) → event_of (f r) ≡ event_of r)
    → ((r : Callback) → RowValid r → RowValid (f r))
    → IsValid rows next
    → IsValid (update_where p f rows) next
update_where-IsValid p f rows next ids events keeps v =
    let same = map-update_where p f callback_id rows ids in
    record {
      ids_ascend = rw same v.ids_ascend;
      ids_below = rw same v.ids_below;
      ids_positive = rw same v.ids_positive;
      next_positive = v.next_positive;
      events_differ = rw (map-update_where p f event_of rows events) v.events_differ;
      rows_valid =
          All-update_where RowValid RowValid p f rows (λ r h _. keeps r h) (λ r h _. h)
            v.rows_valid;
    }

-- no row clashes with an event that a SELECT does not find
unused_event :
    (ext ded : Option String) (rows : List Callback)
    → exists_where (conflicts ext ded) rows ≡ false
    → All (λ old. EventsDiffer old (ext, ded)) (map event_of rows)
unfolding exists_where find_where
unused_event ext ded [] h = tt
unused_event ext ded (r ∷ rows) h = elim (Bool-cases (conflicts ext ded r)) [
  | inl e ↦ ground arith
  | inr e ↦ (e, unused_event ext ded rows (ground arith))
]

map-append_one :
    {B : Type 0} (g : Callback → B) (rows : List Callback) (y : Callback)
    → map g (rows ++ y ∷ []) ≡ map g rows ++ g y ∷ []
map-append_one g rows y = simp map-append

append-IsValid :
    (r : Callback) (rows : List Callback) (next : ℕ)
    → r.id ≡ next
    → RowValid r
    → exists_where (conflicts r.external_event_id r.dedupe_key) rows ≡ false
    → IsValid rows next
    → IsValid (rows ++ r ∷ []) (suc next)
append-IsValid r rows next id valid free v = record {
  ids_ascend =
      rw (map-append_one callback_id rows r, id)
        (Pairs-append_one ◌<◌ (map callback_id rows) next v.ids_ascend v.ids_below);
  ids_below =
      rw (map-append_one callback_id rows r, id)
        (All-append (λ i. i < suc next) (map callback_id rows) (next ∷ [])
          (All-mono (λ i. i < next) (λ i. i < suc next) (map callback_id rows) (λ i h. omega arith)
            v.ids_below)
          (omega arith));
  ids_positive =
      rw (map-append_one callback_id rows r, id)
        (All-append (λ i. 0 < i) (map callback_id rows) (next ∷ []) v.ids_positive
          (v.next_positive, tt));
  next_positive = omega arith;
  events_differ = rw (map-append_one event_of rows r) (
      Pairs-append_one EventsDiffer (map event_of rows) (event_of r) v.events_differ
        (unused_event r.external_event_id r.dedupe_key rows free));
  rows_valid = All-append RowValid rows (r ∷ []) v.rows_valid (valid, tt);
}

new_callback-RowValid :
    (i now : ℕ) (ext ded : Option String) (family kind : String) (a : NewCallback)
    → RowValid (new_callback i now ext ded family kind a)
new_callback-RowValid i now ext ded family kind a = record {
  holder_and_expiry = refl;
  start_and_expiry = refl;
  processed_time = refl;
}

pub insert_row-CallbacksValid :
    (now : ℕ) (ext ded : Option String) (family kind : String) (a : NewCallback)
    (s : VirtualGoodsStore)
    → CallbacksValid s
    → CallbacksValid (insert_row now ext ded family kind a s).0
unfolding insert_row
insert_row-CallbacksValid now ext ded family kind a s v =
    elim (Bool-cases (exists_where (conflicts ext ded) s.callbacks)) [
      | inl e ↦ rw e v
      | inr e ↦ rw e (
          append-IsValid (new_callback s.next_callback_id now ext ded family kind a) s.callbacks
            s.next_callback_id refl
            (new_callback-RowValid s.next_callback_id now ext ded family kind a) e v)
    ]

-- two stores have the same configuration, callbacks and orders
pub record SameTables (s t : VirtualGoodsStore) : Type 0 where
  pub same_ttl : s.callback_lease_ttl_sec ≡ t.callback_lease_ttl_sec
  pub same_claimer : s.callback_claimer_id ≡ t.callback_claimer_id
  pub same_callbacks : s.callbacks ≡ t.callbacks
  pub same_next : s.next_callback_id ≡ t.next_callback_id
  pub same_orders : s.orders ≡ t.orders

pub SameTables-refl : (s : VirtualGoodsStore) → SameTables s s
SameTables-refl s = record {
  same_ttl = refl;
  same_claimer = refl;
  same_callbacks = refl;
  same_next = refl;
  same_orders = refl;
}

record_found-SameTables :
    (now : ℕ) (k : ExceptionKey) (sev : String) (detail : Payload) (s : VirtualGoodsStore)
    (o : Option OpsException)
    → SameTables (record_found now k sev detail s o).0 s
unfolding record_found
record_found-SameTables now k sev detail s none = record {
  same_ttl = refl;
  same_claimer = refl;
  same_callbacks = refl;
  same_next = refl;
  same_orders = refl;
}
record_found-SameTables now k sev detail s (some row) =
    if_both (λ (r : VirtualGoodsStore × ℕ). SameTables r.0 s) (or_text row.status "open" == "open")
      (record {
        same_ttl = refl;
        same_claimer = refl;
        same_callbacks = refl;
        same_next = refl;
        same_orders = refl;
      })
      (record {
        same_ttl = refl;
        same_claimer = refl;
        same_callbacks = refl;
        same_next = refl;
        same_orders = refl;
      })

pub record_ops_exception-SameTables :
    (upper : String → String) (now : ℕ) (k : ExceptionKey) (severity : String) (detail : Payload)
    (s : VirtualGoodsStore)
    → SameTables (record_ops_exception upper now k severity detail s).0 s
unfolding record_ops_exception
record_ops_exception-SameTables upper now k severity detail s =
    record_found-SameTables now k (severity_of upper severity) detail s
      (find_last_where (is_open_for k) s.exceptions)

pub report_unknown_kind-SameTables :
    (upper : String → String) (now i : ℕ) (kind : String) (a : NewCallback) (s : VirtualGoodsStore)
    → SameTables (report_unknown_kind upper now i kind a s) s
unfolding report_unknown_kind
report_unknown_kind-SameTables upper now i kind a s =
    let s' = (record_order_event now (unknown_kind_event now i kind a) s).0 in
    let e =
      record_ops_exception-SameTables upper now (unknown_kind_key kind a) "P1"
        (unknown_kind_detail kind a) s' in
    record {
      same_ttl = e.same_ttl;
      same_claimer = e.same_claimer;
      same_callbacks = e.same_callbacks;
      same_next = e.same_next;
      same_orders = e.same_orders;
    }

pub SameTables-CallbacksValid :
    (s t : VirtualGoodsStore) → SameTables s t → CallbacksValid t → CallbacksValid s
SameTables-CallbacksValid s t e v = rw (e.same_callbacks, e.same_next) v

-- `insert_callback` raises an error, or stores or finds the row, reporting an unknown kind.
pub insert_callback-cases :
    (c : Casing) (upper : String → String) (now : ℕ) (a : NewCallback) (s : VirtualGoodsStore)
    (P : VirtualGoodsStore × Result (ℕ × Bool) → Type 0)
    → ((e : Error) → P (s, raised e))
    → (let (s', i, inserted) = insert_event c now a s in P (s', ok (i, inserted)))
    → (let (s', i, inserted) = insert_event c now a s in
        P (report_unknown_kind upper now i (kind_of c a) a s', ok (i, inserted)))
    → P (insert_callback c upper now a s)
unfolding insert_callback
insert_callback-cases c upper now a s P fails known unknown =
    if_both P
      (not (is_some (event_key c a.external_event_id)) && not (is_some (event_key c a.dedupe_key)))
      (fails _)
      (if_both P (not (one_of (family_of c a) source_families)) (fails _)
        (if_both P (one_of (kind_of c a) event_kinds) known unknown))

-- A property of the callbacks and orders holds after `insert_callback` if it held before and holds
-- after the INSERT.
pub insert_callback-keeps :
    (c : Casing) (upper : String → String) (now : ℕ) (a : NewCallback) (s : VirtualGoodsStore)
    (Q : VirtualGoodsStore → Type 0)
    → ((s' t' : VirtualGoodsStore) → SameTables s' t' → Q t' → Q s')
    → Q s
    → Q (insert_event c now a s).0
    → Q (insert_callback c upper now a s).0
insert_callback-keeps c upper now a s Q respects before after =
    let (s', i, _) = insert_event c now a s in
    insert_callback-cases c upper now a s (λ r. Q r.0) (λ e. before) after
      (respects _ s' (report_unknown_kind-SameTables upper now i (kind_of c a) a s') after)

pub insert_callback-CallbacksValid :
    (c : Casing) (upper : String → String) (now : ℕ) (a : NewCallback) (s : VirtualGoodsStore)
    → CallbacksValid s
    → CallbacksValid (insert_callback c upper now a s).0
insert_callback-CallbacksValid c upper now a s v =
    insert_callback-keeps c upper now a s CallbacksValid SameTables-CallbacksValid v (
      insert_row-CallbacksValid now (event_key c a.external_event_id) (event_key c a.dedupe_key)
        (family_of c a) (stored_kind (kind_of c a)) a s v)

module _ (c : Casing) (s : VirtualGoodsStore) (v : CallbacksValid s) where
  pub claim_callback_lease-CallbacksValid :
      (now later i : ℕ) (filter : Option Bool) (claimer : Option String)
      → CallbacksValid (claim_callback_lease c now later i filter claimer s).0
  unfolding claim_callback_lease
  claim_callback_lease-CallbacksValid now later i filter claimer =
      update_where-IsValid (λ r. has_callback_id i r && is_claimable now filter r)
        (lease_to (claimer_or_default c claimer s) now (later + s.callback_lease_ttl_sec))
        s.callbacks s.next_callback_id (λ r. refl) (λ r. refl)
        (λ r h. record {
          holder_and_expiry = refl;
          start_and_expiry = refl;
          processed_time = h.processed_time;
        })
        v

  pub reclaim_callback_lease-CallbacksValid :
      (i : ℕ) (claimer : Option String) → CallbacksValid (reclaim_callback_lease c i claimer s).0
  unfolding reclaim_callback_lease
  reclaim_callback_lease-CallbacksValid i claimer =
      update_where-IsValid
        (λ r. has_callback_id i r && free_or_mine (claimer_or_default c claimer s) r.claimed_by)
        unclaimed s.callbacks s.next_callback_id (λ r. refl) (λ r. refl)
        (λ r h. record {
          holder_and_expiry = refl;
          start_and_expiry = refl;
          processed_time = h.processed_time;
        })
        v

  pub mark_callback_processed-CallbacksValid :
      (now i : ℕ) (processed : Bool) (last_error : String)
      → CallbacksValid (mark_callback_processed now i processed last_error s)
  unfolding mark_callback_processed
  mark_callback_processed-CallbacksValid now i processed last_error =
      update_where-IsValid (has_callback_id i) _ s.callbacks s.next_callback_id (λ r. refl)
        (λ r. refl)
        (λ r h. record {
          holder_and_expiry = refl;
          start_and_expiry = refl;
          processed_time = ground arith;
        })
        v
