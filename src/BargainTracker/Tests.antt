-- ===== src/BargainTracker/Tests.antt =====
-- Two chats, and the theorems of Counts at concrete inputs.
use realxianyu.Base.{◌+◌, ◌≡◌, refl, true, List, [], ◌∷◌, Casing}
use realxianyu.Base.Table.{count_where}
use realxianyu.BargainTracker.{BargainCount, is_bargain_message, get_count}
use realxianyu.BargainTracker.Counts.{Message, record_all, bargains_in, get_count-record_all}

abbrev casing : Casing
casing = record { strip = λ t. t; lower = λ t. t }

abbrev counts : List BargainCount
counts =
    (record { chat_id = "a"; count = 2; last_updated = "t0" })
    ∷ (record { chat_id = "b"; count = 1; last_updated = "t0" })
    ∷ []

abbrev messages : List Message
messages = ("t1", "a", "能便宜吗") ∷ ("t2", "b", "你好") ∷ ("t3", "a", "最低多少") ∷ []

bargains : is_bargain_message casing "能便宜吗" ≡ true
unfolding is_bargain_message
bargains = refl

get_count-record_all_example :
    get_count "a" (record_all casing messages counts)
    ≡ get_count "a" counts + count_where (bargains_in casing "a") messages
get_count-record_all_example = get_count-record_all casing "a" messages counts
