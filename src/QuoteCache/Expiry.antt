-- ===== src/QuoteCache/Expiry.antt =====
-- How long a quote of src/modules/quote/cache.py is served.

use realxianyu.Base.{
  ℕ, ◌+◌, ◌≡◌, refl, true, false, Option, none, some, String, arith, leb, ◌==◌, string_eq, eq_iff,
  eq_refl, if◌then◌else◌, Option-cases, inl, inr,
}
use realxianyu.Base.Table.{find_where, has_key}
use realxianyu.Base.Table.Keyed.{find_where-upsert_by, find_where-update_key, find_where-delete_key}
use realxianyu.Base.Table.Laws.{find_where_holds}
use realxianyu.QuoteCache.{
  QuoteResult, QuoteCacheEntry, QuoteCache, key_of, flagged, read_entry, get, set,
}

module _ {Body : Type 0} where
  abbrev fresh_entry : ℕ → String → QuoteResult Body → QuoteCache Body → QuoteCacheEntry Body
  fresh_entry now key r c = record {
    entry_key = key;
    value = r;
    expires_at = now + c.ttl_seconds;
    stale_until = now + c.ttl_seconds + c.max_stale_seconds;
  }

  set-found :
      (now : ℕ) (key k : String) (r : QuoteResult Body) (c : QuoteCache Body)
      → find_where (has_key key_of k) (set now key r c).entries ≡ (
          if key == k
          then some (fresh_entry now key r c)
          else find_where (has_key key_of k) c.entries)
  unfolding set
  set-found now key k r c =
      let upserted =
        find_where-upsert_by key_of (fresh_entry now key r c)
          (λ e. record (fresh_entry now key r c) { entry_key = e.entry_key }) k c.entries
          (λ e. refl) in
      elim (Option-cases (find_where (has_key key_of k) c.entries)) [
        | inl absent ↦ ground (arith, upserted, absent)
        | inr (e, present) ↦ ground (
          arith,
          upserted,
          present,
          eq_iff key k,
          eq_iff e.entry_key k,
          find_where_holds (has_key key_of k) c.entries present,
        )
      ]

  -- A quote that was set at `t` is found fresh until `t + ttl_seconds`, stale for `max_stale_seconds`
  -- more, and not at all after that; the flags of the result say which.
  pub get-set :
      (t now : ℕ) (key : String) (r : QuoteResult Body) (c : QuoteCache Body)
      → (get now key (set t key r c)).1 ≡ (
          if leb now (t + c.ttl_seconds)
          then (some (record r { cache_hit = true; stale = false }), true, false)
          else if leb now (t + c.ttl_seconds + c.max_stale_seconds)
          then (some (record r { cache_hit = true; stale = true }), false, true)
          else (none, false, false))
  unfolding get read_entry
  get-set t now key r c = rw (set-found t key key r c, eq_refl key) (ground arith)

  read_entry-other_key :
      (now : ℕ) (key k : String) (c : QuoteCache Body) (o : Option (QuoteCacheEntry Body))
      → (key == k) ≡ false
      → find_where (has_key key_of k) (read_entry now key c o).0.entries
        ≡ find_where (has_key key_of k) c.entries
  unfolding read_entry
  read_entry-other_key now key k c none ne = refl
  read_entry-other_key now key k c (some e) ne = ground (
    arith,
    find_where-update_key key_of (flagged false) k key c.entries (λ x. refl),
    find_where-update_key key_of (flagged true) k key c.entries (λ x. refl),
    find_where-delete_key key_of k key c.entries,
  )

  -- Reading or writing one key leaves what another key finds as it is.
  pub get-other_key :
      (t now : ℕ) (key k : String) (r : QuoteResult Body) (c : QuoteCache Body)
      → (key == k) ≡ false
      → (find_where (has_key key_of k) (get now key c).0.entries
          ≡ find_where (has_key key_of k) c.entries)
        × (find_where (has_key key_of k) (set t key r c).entries
            ≡ find_where (has_key key_of k) c.entries)
  unfolding get
  get-other_key t now key k r c ne =
      (read_entry-other_key now key k c _ ne, ground (arith, set-found t key k r c))
