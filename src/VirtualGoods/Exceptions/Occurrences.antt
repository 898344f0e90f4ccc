-- ===== src/VirtualGoods/Exceptions/Occurrences.antt =====
-- Every occurrence is counted once by the exception pool of src/modules/virtual_goods/store.py.
use mathlib.Core.List.{map-append}
use realxianyu.Base.{
  ℕ, suc, ◌+◌, ◌<◌, ◌≡◌, refl, subst, Bool, Option, none, some, List, [], ◌∷◌, ◌++◌, map, String,
  arith, ◌==◌, nat_eq, string_eq, Option-cases, inl, inr, if_both, or_text,
}
use realxianyu.Base.Lists.{All, All-append, All-mono, Pairs, Pairs-append_one}
use realxianyu.Base.Table.{update_where, find_last_where}
use realxianyu.Base.Table.Columns.{map-update_where}
use realxianyu.VirtualGoods.Rows.{Payload, OpsException, VirtualGoodsStore}
use realxianyu.VirtualGoods.Exceptions.{
  ExceptionKey, is_open_for, has_exception_id, severity_of, seen_again, record_found,
  record_ops_exception,
}

abbrev pub exception_id : OpsException → ℕ
exception_id x = x.id

-- the occurrences that the pool has counted
unfoldable pub total : List OpsException → ℕ
total [] = 0
total (x ∷ xs) = x.occurrence_count + total xs

-- ids ascend in the order of the table and lie below the counter
pub record PoolValid (s : VirtualGoodsStore) : Type 0 where
  pub ids_ascend : Pairs ◌<◌ (map exception_id s.exceptions)
  pub ids_below : All (λ i. i < s.next_exception_id) (map exception_id s.exceptions)

total-append : (xs ys : List OpsException) → total (xs ++ ys) ≡ total xs + total ys
unfolding total
total-append [] ys = omega arith
total-append (x ∷ xs) ys = omega (arith, total-append xs ys)

module _ (now : ℕ) (sev : String) (detail : Payload) (i : ℕ) where
  above-update_where :
      (xs : List OpsException)
      → All (λ j. i < j) (map exception_id xs)
      → total (update_where (has_exception_id i) (seen_again now sev detail) xs) ≡ total xs
  unfolding total update_where
  above-update_where [] h = refl
  above-update_where (x ∷ xs) h = ground (arith, h.0, above-update_where xs h.1)

module _ (now : ℕ) (sev : String) (detail : Payload) (p : OpsException → Bool) where
  found_above :
      (b : ℕ) (xs : List OpsException) (r : OpsException)
      → All (λ j. b < j) (map exception_id xs)
      → find_last_where p xs ≡ some r
      → b < r.id
  unfolding find_last_where
  found_above b [] r h e = cc
  found_above b (x ∷ xs) r h e = ground (arith, h.0, found_above b xs r h.1)

  -- an UPDATE of the row that was found counts one more occurrence
  total-update_where :
      (xs : List OpsException) (r : OpsException)
      → Pairs ◌<◌ (map exception_id xs)
      → find_last_where p xs ≡ some r
      → total (update_where (has_exception_id r.id) (seen_again now sev detail) xs) ≡ total xs + 1
  unfolding total update_where find_last_where
  total-update_where [] r h e = cc
  total-update_where (x ∷ xs) r h e = elim (Option-cases (find_last_where p xs)) [
    | inl nothing ↦
        let own : x.id ≡ r.id = ground (arith, e, nothing) in
        let later = subst (λ j. All (λ k. j < k) (map exception_id xs)) own h.0 in
        ground (arith, own, above-update_where now sev detail r.id xs later)
    | inr (q, there) ↦
        let same : find_last_where p xs ≡ some r = ground (arith, e, there) in
        ground (arith, found_above x.id xs r h.0 same, total-update_where xs r h.1 same)
  ]

record_found-total :
    (now : ℕ) (k : ExceptionKey) (sev : String) (detail : Payload) (p : OpsException → Bool)
    (s : VirtualGoodsStore) (o : Option OpsException)
    → PoolValid s
    → find_last_where p s.exceptions ≡ o
    → total (record_found now k sev detail s o).0.exceptions ≡ total s.exceptions + 1
unfolding record_found total
record_found-total now k sev detail p s none v e = omega (arith, total-append s.exceptions (_ ∷ []))
record_found-total now k sev detail p s (some r) v e =
    let counted = total-update_where now sev detail p s.exceptions r v.ids_ascend e in
    if_both
      (λ (x : VirtualGoodsStore × ℕ).
        total (VirtualGoodsStore.exceptions x.0) ≡ total s.exceptions + 1)
      (or_text r.status "open" == "open") counted counted

map-append_one :
    (xs : List OpsException) (y : OpsException)
    → map exception_id (xs ++ y ∷ []) ≡ map exception_id xs ++ exception_id y ∷ []
map-append_one xs y = simp map-append

record_found-PoolValid :
    (now : ℕ) (k : ExceptionKey) (sev : String) (detail : Payload) (s : VirtualGoodsStore)
    (o : Option OpsException)
    → PoolValid s
    → PoolValid (record_found now k sev detail s o).0
unfolding record_found
record_found-PoolValid now k sev detail s none v =
    let n = s.next_exception_id in
    record {
      ids_ascend =
          rw (map-append_one s.exceptions _)
            (Pairs-append_one ◌<◌ (map exception_id s.exceptions) n v.ids_ascend v.ids_below);
      ids_below = rw (map-append_one s.exceptions _) (
          All-append (λ i. i < suc n) (map exception_id s.exceptions) (n ∷ [])
            (All-mono (λ i. i < n) (λ i. i < suc n) (map exception_id s.exceptions)
              (λ i h. omega arith) v.ids_below)
            (omega arith));
    }
record_found-PoolValid now k sev detail s (some r) v =
    let same =
      map-update_where (has_exception_id r.id) (seen_again now sev detail) exception_id s.exceptions
        (λ x. refl) in
    let valid : PoolValid (record s {
      exceptions = update_where (has_exception_id r.id) (seen_again now sev detail) s.exceptions;
    }) =
      record { ids_ascend = rw same v.ids_ascend; ids_below = rw same v.ids_below } in
    if_both (λ (x : VirtualGoodsStore × ℕ). PoolValid x.0) (or_text r.status "open" == "open") valid
      (record { ids_ascend = valid.ids_ascend; ids_below = valid.ids_below })

-- `record_ops_exception` keeps the ids of the pool unique and adds exactly one to the occurrences
-- that the pool has counted, whether the exception is new, open or reopened.
pub record_ops_exception-total :
    (upper : String → String) (now : ℕ) (k : ExceptionKey) (severity : String) (detail : Payload)
    (s : VirtualGoodsStore)
    → PoolValid s
    → let s' = (record_ops_exception upper now k severity detail s).0 in
      PoolValid s' × (total s'.exceptions ≡ total s.exceptions + 1)
unfolding record_ops_exception
record_ops_exception-total upper now k severity detail s v =
    let sev = severity_of upper severity in
    let found = find_last_where (is_open_for k) s.exceptions in
    (
      record_found-PoolValid now k sev detail s found v,
      record_found-total now k sev detail (is_open_for k) s found v refl,
    )
