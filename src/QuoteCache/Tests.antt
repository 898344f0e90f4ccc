-- ===== src/QuoteCache/Tests.antt =====
-- A cache of one quote, and the theorems of Expiry at concrete inputs.
use realxianyu.Base.{ℕ, ◌≡◌, true, false, some, []}
use realxianyu.QuoteCache.{QuoteResult, QuoteCache, get, set}
use realxianyu.QuoteCache.Expiry.{get-set}

abbrev quote : QuoteResult ℕ
quote = record { body = 12; cache_hit = false; stale = false }

abbrev cache : QuoteCache ℕ
cache = record { ttl_seconds = 60; max_stale_seconds = 300; entries = [] }

abbrev filled : QuoteCache ℕ
filled = set 5 "b" quote cache

get-set_example :
    (get 100 "a" (set 10 "a" quote filled)).1
    ≡ (some (record quote { cache_hit = true; stale = true }), false, true)
unfolding set
get-set_example = get-set {Body = ℕ} 10 100 "a" quote filled
