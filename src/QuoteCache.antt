-- ===== src/QuoteCache.antt =====
-- src/modules/quote/cache.py: quotes cached by key, fresh for `ttl_seconds` and served as stale for
-- `max_stale_seconds` more. The dictionary is a list of its items. `get` writes its flags into the
-- cached object itself, so that it updates the item; `Body` is the rest of a QuoteResult.
pub mod Expiry
mod Tests
use realxianyu.Base.{
  ℕ, ◌+◌, max, Bool, true, false, Option, none, some, List, [], ◌∷◌, ◌++◌, String, leb, ◌==◌,
  string_eq, if◌then◌else◌,
}
use realxianyu.Base.Table.{find_where, update_where, delete_where, has_key, upsert_by}

pub record QuoteResult (Body : Type 0) : Type 0 where
  pub body : Body
  pub cache_hit : Bool
  pub stale : Bool

-- an item of the dictionary: its key and a QuoteCacheEntry
pub record QuoteCacheEntry (Body : Type 0) : Type 0 where
  pub entry_key : String
  pub value : QuoteResult Body
  pub expires_at : ℕ
  pub stale_until : ℕ

pub record QuoteCache (Body : Type 0) : Type 0 where
  pub ttl_seconds : ℕ
  pub max_stale_seconds : ℕ
  pub entries : List (QuoteCacheEntry Body)

-- the constructor; a negative `max_stale_seconds` is 0 there
unfoldable pub create : {Body : Type 0} → ℕ → ℕ → QuoteCache Body
create ttl stale = record { ttl_seconds = max 1 ttl; max_stale_seconds = stale; entries = [] }

-- what `get` returns: the quote, whether it is fresh, whether it is stale
abbrev pub Lookup : Type 0 → Type 0
Lookup Body = Option (QuoteResult Body) × Bool × Bool

module _ {Body : Type 0} where
  abbrev pub key_of : QuoteCacheEntry Body → String
  key_of e = e.entry_key

  -- the cached object with the flags of this read
  abbrev pub flagged : Bool → QuoteCacheEntry Body → QuoteCacheEntry Body
  flagged is_stale e = record e { value = record e.value { cache_hit = true; stale = is_stale } }

  unfoldable pub read_entry :
      ℕ → String → QuoteCache Body → Option (QuoteCacheEntry Body) → QuoteCache Body × Lookup Body
  unfolding update_where delete_where
  read_entry now key c none = (c, (none, false, false))
  read_entry now key c (some e) =
      if leb now e.expires_at
      then (
        record c { entries = update_where (has_key key_of key) (flagged false) c.entries },
        (some (flagged false e).value, true, false),
      )
      else if leb now e.stale_until
      then (
        record c { entries = update_where (has_key key_of key) (flagged true) c.entries },
        (some (flagged true e).value, false, true),
      )
      else (
        record c { entries = delete_where (has_key key_of key) c.entries },
        (none, false, false),
      )

  unfoldable pub get : ℕ → String → QuoteCache Body → QuoteCache Body × Lookup Body
  unfolding read_entry find_where
  get now key c = read_entry now key c (find_where (has_key key_of key) c.entries)

  unfoldable pub set : ℕ → String → QuoteResult Body → QuoteCache Body → QuoteCache Body
  unfolding upsert_by
  set now key result c =
      let entry : QuoteCacheEntry Body = record {
        entry_key = key;
        value = result;
        expires_at = now + c.ttl_seconds;
        stale_until = now + c.ttl_seconds + c.max_stale_seconds;
      } in
      record c {
        entries = upsert_by key_of entry (λ e. record entry { entry_key = e.entry_key }) c.entries;
      }
