-- ===== src/VirtualGoods/Callbacks/Events.antt =====
-- Where an event stands in the callback table of src/modules/virtual_goods/store.py, and that it is
-- stored once.

use realxianyu.Base.{
  ℕ, ◌≡◌, refl, ap, ◌∙◌, Bool, true, false, not, ◌&&◌, ◌||◌, Option, none, some, List, [], ◌∷◌,
  ◌++◌, String, arith, eq_refl, string_eq, nat_eq, is_some, if_both, if_both_with, Casing, one_of,
}
use realxianyu.Base.Result.{Result, ok, raised}
use realxianyu.Base.Table.{update_where, find_where, find_last_where, exists_where}
use realxianyu.VirtualGoods.Rows.{Callback, VirtualGoodsStore}
use realxianyu.VirtualGoods.Callbacks.{
  NewCallback, event_of, conflicts, matches_event, same_text, clashes, new_callback, id_or_zero,
  insert_row, event_key, family_of, kind_of, stored_kind, insert_event, insert_callback,
  event_kinds, source_families,
}
use realxianyu.VirtualGoods.Callbacks.Invariant.{
  callback_id, SameTables, SameTables-refl, report_unknown_kind-SameTables,
}

-- the event is stored, and the SELECT of `insert_callback` finds it under the id `i`
pub record Located (ext ded : Option String) (i : ℕ) (rows : List Callback) : Type 0 where
  pub is_stored : exists_where (conflicts ext ded) rows ≡ true
  pub found_id : id_or_zero (find_last_where (matches_event ext ded) rows) ≡ i

module _ (p : Callback → Bool) (f : Callback → Callback) (q : Callback → Bool) where
  exists_where-update_where :
      (rows : List Callback)
      → ((r : Callback) → q (f r) ≡ q r)
      → exists_where q (update_where p f rows) ≡ exists_where q rows
  unfolding exists_where find_where update_where
  exists_where-update_where [] h = refl
  exists_where-update_where (r ∷ rows) h = ground (arith, h r, exists_where-update_where rows h)

  found_id-update_where :
      (rows : List Callback)
      → ((r : Callback) → q (f r) ≡ q r)
      → ((r : Callback) → callback_id (f r) ≡ callback_id r)
      → (id_or_zero (find_last_where q (update_where p f rows))
          ≡ id_or_zero (find_last_where q rows))
        × (is_some (find_last_where q (update_where p f rows)) ≡ is_some (find_last_where q rows))
  unfolding find_last_where update_where
  found_id-update_where [] h k = (refl, refl)
  found_id-update_where (r ∷ rows) h k =
      let (ids, found) = found_id-update_where rows h k in
      (ground (arith, h r, k r, ids, found), ground (arith, h r, found))

-- An UPDATE that leaves ids and events alone leaves the event where it is.
pub update_where-Located :
    (ext ded : Option String) (i : ℕ) (p : Callback → Bool) (f : Callback → Callback)
    (rows : List Callback)
    → ((r : Callback) → event_of (f r) ≡ event_of r)
    → ((r : Callback) → callback_id (f r) ≡ callback_id r)
    → Located ext ded i rows
    → Located ext ded i (update_where p f rows)
update_where-Located ext ded i p f rows events ids l = record {
  is_stored =
      exists_where-update_where p f (conflicts ext ded) rows (λ r. ap (clashes ext ded) (events r))
      ∙ l.is_stored;
  found_id =
      (found_id-update_where p f (matches_event ext ded) rows
        (λ r.
          ap
            (λ ((e, d) : Option String × Option String).
              same_text e ext || not (is_some e) && same_text d ded)
            (events r))
        ids).0
      ∙ l.found_id;
}

-- a row of the event is found by both queries
own_event :
    (ext ded : Option String)
    → (is_some ext || is_some ded) ≡ true
    → (clashes ext ded (ext, ded) ≡ true)
      × ((same_text ext ext || not (is_some ext) && same_text ded ded) ≡ true)
own_event none none keyed = absurd (ground arith)
own_event none (some d) keyed = (eq_refl d, eq_refl d)
own_event (some x) ded keyed = (eq_refl x, rw (eq_refl x) refl)

module _ (q : Callback → Bool) (r : Callback) (hit : q r ≡ true) where
  exists_where-last : (rows : List Callback) → exists_where q (rows ++ r ∷ []) ≡ true
  unfolding exists_where find_where
  exists_where-last [] = rw hit refl
  exists_where-last (x ∷ rows) = ground (arith, exists_where-last rows)

  find_last_where-last : (rows : List Callback) → find_last_where q (rows ++ r ∷ []) ≡ some r
  unfolding find_last_where
  find_last_where-last [] = rw hit refl
  find_last_where-last (x ∷ rows) = rw (find_last_where-last rows) refl

append-Located :
    (ext ded : Option String) (r : Callback) (rows : List Callback)
    → conflicts ext ded r ≡ true
    → matches_event ext ded r ≡ true
    → Located ext ded r.id (rows ++ r ∷ [])
append-Located ext ded r rows c m = record {
  is_stored = exists_where-last (conflicts ext ded) r c rows;
  found_id = ap id_or_zero (find_last_where-last (matches_event ext ded) r m rows);
}

-- After the INSERT of an event with a key, it is located under the id that is returned.
pub insert_row-Located :
    (now : ℕ) (ext ded : Option String) (family kind : String) (a : NewCallback)
    (s : VirtualGoodsStore)
    → (is_some ext || is_some ded) ≡ true
    → let (s', i, _) = insert_row now ext ded family kind a s in Located ext ded i s'.callbacks
unfolding insert_row
insert_row-Located now ext ded family kind a s keyed =
    let r = new_callback s.next_callback_id now ext ded family kind a in
    let own = own_event ext ded keyed in
    if_both_with
      (λ (x : VirtualGoodsStore × ℕ × Bool). Located ext ded x.1 (VirtualGoodsStore.callbacks x.0))
      (exists_where (conflicts ext ded) s.callbacks)
      (λ e. record { is_stored = e; found_id = refl })
      (λ _. append-Located ext ded r s.callbacks own.0 own.1)

-- The INSERT of an event that is stored changes nothing and finds its id.
pub insert_row-stored :
    (now i : ℕ) (ext ded : Option String) (family kind : String) (a : NewCallback)
    (s : VirtualGoodsStore)
    → Located ext ded i s.callbacks
    → insert_row now ext ded family kind a s ≡ (s, i, false)
unfolding insert_row
insert_row-stored now i ext ded family kind a s l =
    rw (l.is_stored) (ap (λ j. (s, j, false)) l.found_id)

module _ (c : Casing) (upper : String → String) (now : ℕ) (a : NewCallback) where
  -- the guards of `insert_callback` let the event pass
  pub record Accepted : Type 0 where
    pub has_key :
        not (is_some (event_key c a.external_event_id)) && not (is_some (event_key c a.dedupe_key))
        ≡ false
    pub known_family : not (one_of (family_of c a) source_families) ≡ false

  -- where the event of the arguments is stored
  abbrev pub EventAt : ℕ → VirtualGoodsStore → Type 0
  EventAt i s = Located (event_key c a.external_event_id) (event_key c a.dedupe_key) i s.callbacks

  -- If `insert_callback` returns, its guards have passed and the event is located under the id.
  abbrev pub Stored : VirtualGoodsStore × Result (ℕ × Bool) → Type 0
  Stored (s, raised e) = Unit
  Stored (s, ok (i, inserted)) = Accepted × EventAt i s

  pub insert_callback-Stored : (s : VirtualGoodsStore) → Stored (insert_callback c upper now a s)
  unfolding insert_callback
  insert_callback-Stored s =
      let (s', i, _) = insert_event c now a s in
      if_both_with Stored
        (not (is_some (event_key c a.external_event_id))
          && not (is_some (event_key c a.dedupe_key)))
        (λ _. tt)
        (λ keyed.
          let located : EventAt i s' =
            insert_row-Located now (event_key c a.external_event_id) (event_key c a.dedupe_key)
              (family_of c a) (stored_kind (kind_of c a)) a s (ground arith) in
          if_both_with Stored (not (one_of (family_of c a) source_families)) (λ _. tt)
            (λ known.
              if_both Stored (one_of (kind_of c a) event_kinds)
                (record { has_key = keyed; known_family = known }, located)
                (
                  record { has_key = keyed; known_family = known },
                  rw
                      (SameTables.same_callbacks
                        (report_unknown_kind-SameTables upper now i (kind_of c a) a s'))
                      located,
                )))

  -- An event that is stored is found again: `insert_callback` returns its id, and leaves the
  -- callbacks and the orders as they are.
  pub insert_callback-again :
      (i : ℕ) (s : VirtualGoodsStore)
      → Accepted
      → EventAt i s
      → let r = insert_callback c upper now a s in SameTables r.0 s × (r.1 ≡ ok (i, false))
  unfolding insert_callback
  insert_callback-again i s guards located =
      let found =
        insert_row-stored now i (event_key c a.external_event_id) (event_key c a.dedupe_key)
          (family_of c a) (stored_kind (kind_of c a)) a s located in
      rw (guards.has_key, guards.known_family, found)
        (if_both
          (λ (r : VirtualGoodsStore × Result (ℕ × Bool)). SameTables r.0 s × (r.1 ≡ ok (i, false)))
          (one_of (kind_of c a) event_kinds) (SameTables-refl s, refl)
          (report_unknown_kind-SameTables upper now i (kind_of c a) a s, refl))
