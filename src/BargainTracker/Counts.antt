-- ===== src/BargainTracker/Counts.antt =====
-- The counter of src/modules/messages/bargain_tracker.py counts the bargaining messages of a chat.

use realxianyu.Base.{
  Casing, ◌+◌, ◌≡◌, refl, subst, Bool, ◌&&◌, Option, none, some, List, [], ◌∷◌, String, arith, ◌==◌,
  string_eq, nat_eq, eq_iff, eq_refl, if◌then◌else◌, Bool-cases, inl, inr,
}
use realxianyu.Base.Table.{exists_where, find_where, count_where, has_key}
use realxianyu.Base.Table.Laws.{find_where-append}
use realxianyu.Base.Table.Keyed.{find_where-update_key, find_where-delete_key}
use realxianyu.BargainTracker.{
  BargainCount, row_chat, is_bargain_message, count_of, get_count, write_count, increment,
  record_if_bargain, reset,
}

get_count-write_count :
    (now chat k : String) (rows : List BargainCount) (o : Option BargainCount)
    → find_where (has_key row_chat chat) rows ≡ o
    → get_count k (write_count now chat rows o).0
      ≡ (if chat == k then count_of o + 1 else get_count k rows)
unfolding get_count write_count find_where exists_where
get_count-write_count now chat k rows none e =
    let fresh : BargainCount = record { chat_id = chat; count = 1; last_updated = now } in
    elim (Bool-cases (chat == k)) [
      | inl same ↦
          let absent : find_where (has_key row_chat k) rows ≡ none =
            subst (λ c. find_where (has_key row_chat c) rows ≡ none) ((eq_iff chat k).0 same) e in
          ground (arith, same, absent, find_where-append (has_key row_chat k) rows (fresh ∷ []))
      | inr other ↦ ground (arith, other, find_where-append (has_key row_chat k) rows (fresh ∷ []))
    ]
get_count-write_count now chat k rows (some r) e =
    let change = λ (x : BargainCount). record x { count = r.count + 1; last_updated = now } in
    ground (arith, eq_iff chat k, e, find_where-update_key row_chat change k chat rows (λ x. refl))

write_count-count :
    (now chat : String) (rows : List BargainCount) (o : Option BargainCount)
    → (write_count now chat rows o).1 ≡ count_of o + 1
unfolding write_count
write_count-count now chat rows none = refl
write_count-count now chat rows (some r) = refl

-- `increment` adds one to the count of its chat and to no other, and returns the new count.
pub get_count-increment :
    (now chat k : String) (rows : List BargainCount)
    → let (rows', n) = increment now chat rows in
      (get_count k rows' ≡ get_count k rows + (if chat == k then 1 else 0))
      × (n ≡ get_count chat rows')
unfolding increment get_count write_count
get_count-increment now chat k rows =
    let row = find_where (has_key row_chat chat) rows in
    (
      ground (arith, eq_iff chat k, get_count-write_count now chat k rows row refl),
      ground (
        arith,
        eq_refl chat,
        get_count-write_count now chat chat rows row refl,
        write_count-count now chat rows row,
      ),
    )

-- After `reset` the count of the chat is 0; every other count is as before.
pub get_count-reset :
    (chat k : String) (rows : List BargainCount)
    → get_count k (reset chat rows) ≡ (if chat == k then 0 else get_count k rows)
unfolding get_count reset
get_count-reset chat k rows = ground (arith, find_where-delete_key row_chat k chat rows)

-- a message: the time, its chat and its text
abbrev pub Message : Type 0
Message = String × String × String

unfoldable pub record_all : Casing → List Message → List BargainCount → List BargainCount
unfolding record_if_bargain
record_all c [] rows = rows
record_all c ((now, chat, content) ∷ ms) rows =
    record_all c ms (record_if_bargain c now chat content rows).0

abbrev pub bargains_in : Casing → String → Message → Bool
bargains_in c k (now, chat, content) = chat == k && is_bargain_message c content

-- After any messages of any chats have been recorded, the count of a chat has grown by the number of
-- those that belong to it and bargain.
pub get_count-record_all :
    (c : Casing) (k : String) (ms : List Message) (rows : List BargainCount)
    → get_count k (record_all c ms rows) ≡ get_count k rows + count_where (bargains_in c k) ms
unfolding record_all record_if_bargain count_where
get_count-record_all c k [] rows = omega arith
get_count-record_all c k ((now, chat, content) ∷ ms) rows = ground (
  arith,
  get_count-increment now chat k rows,
  get_count-record_all c k ms (record_if_bargain c now chat content rows).0,
)
