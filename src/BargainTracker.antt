-- ===== src/BargainTracker.antt =====
-- src/modules/messages/bargain_tracker.py: how often each chat has bargained. A row of bargain_counts
-- is a `BargainCount`; `now` is the time text that a method writes. `strip` and `lower` are Python's.
-- An error of SQLite, on which `increment` returns 0, is not modelled.
pub mod Counts
mod Tests
use realxianyu.Base.{
  ℕ, ◌+◌, Bool, true, false, not, ◌||◌, Option, none, some, List, [], ◌∷◌, ◌++◌, String, leb, ◌==◌,
  nat_eq, string_eq, if◌then◌else◌, is_some, Casing, any_keyword,
}
use realxianyu.Base.Table.{find_where, update_where, delete_where, has_key}

pub record BargainCount : Type 0 where
  pub chat_id : String
  pub count : ℕ
  pub last_updated : String

abbrev pub row_chat : BargainCount → String
row_chat r = r.chat_id

abbrev pub bargain_keywords : List String
bargain_keywords =
    "便宜" ∷ "优惠" ∷ "少一点" ∷ "能少" ∷ "能便宜" ∷ "打折" ∷ "折扣" ∷ "最低" ∷ "底价" ∷ "减" ∷ "降" ∷ "让" ∷ "砍" ∷ "多少能卖"
    ∷ "什么价" ∷ "最低多少" ∷ []

unfoldable pub is_bargain_message : Casing → String → Bool
is_bargain_message c content = any_keyword (c.lower (c.strip content)) bargain_keywords

abbrev pub count_of : Option BargainCount → ℕ
count_of none = 0
count_of (some r) = r.count

unfoldable pub get_count : String → List BargainCount → ℕ
unfolding find_where
get_count chat rows = count_of (find_where (has_key row_chat chat) rows)

-- the UPDATE of the row that the SELECT found, or the INSERT
unfoldable pub write_count :
    String → String → List BargainCount → Option BargainCount → List BargainCount × ℕ
unfolding update_where
write_count now chat rows none =
    (rows ++ (record { chat_id = chat; count = 1; last_updated = now }) ∷ [], 1)
write_count now chat rows (some r) = (
  update_where (has_key row_chat chat) (λ x. record x { count = r.count + 1; last_updated = now })
      rows,
  r.count + 1,
)

unfoldable pub increment : String → String → List BargainCount → List BargainCount × ℕ
unfolding write_count find_where
increment now chat rows = write_count now chat rows (find_where (has_key row_chat chat) rows)

unfoldable pub record_if_bargain :
    Casing → String → String → String → List BargainCount → List BargainCount × ℕ
unfolding is_bargain_message increment get_count
record_if_bargain c now chat content rows =
    if is_bargain_message c content then increment now chat rows else (rows, get_count chat rows)

unfoldable pub reset : String → List BargainCount → List BargainCount
unfolding delete_where
reset chat rows = delete_where (has_key row_chat chat) rows

-- the hints that `get_context_hint` words, with the count that the text shows
pub data Hint : Type 0 where
  first_round second_round : Hint
  several_rounds many_rounds : ℕ → Hint

unfoldable pub get_context_hint : String → List BargainCount → Option Hint
unfolding get_count
get_context_hint chat rows =
    let count = get_count chat rows in
    if count == 0
    then none
    else if count == 1
    then some first_round
    else if count == 2
    then some second_round
    else if leb count 4
    then some (several_rounds count)
    else some (many_rounds count)
