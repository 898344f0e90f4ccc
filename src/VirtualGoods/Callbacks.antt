-- ===== src/VirtualGoods/Callbacks.antt =====
-- The callback table of `VirtualGoodsStore` in src/modules/virtual_goods/store.py: an event is stored
-- once. `now` and `later` are successive readings of the clock. A call without a connection opens one
-- and calls itself with the values that it has normalised; they are normalised once here, since strip
-- and lower are idempotent and the callers pass no blank kind. `Lease` is how a callback is claimed.
pub mod Lease
pub mod Invariant
pub mod ById
pub mod Refine
pub mod Leases
pub mod Events
pub mod Oldest
use realxianyu.Base.{
  ℕ, suc, ◌+◌, Bool, true, false, not, ◌&&◌, ◌||◌, Option, none, some, List, [], ◌∷◌, ◌++◌, String,
  leb, ◌==◌, string_eq, nat_eq, if◌then◌else◌, text_append, is_some, Casing, or_text, or_empty,
  nonempty, one_of,
}
use realxianyu.Base.Result.{Result, ok, raised, value_error}
use realxianyu.Base.Table.{
  update_where, count_where, find_where, find_last_where, exists_where, select_where,
}
use realxianyu.VirtualGoods.Rows.{Payload, AuditHeaders, Callback, OrderEvent, VirtualGoodsStore}
use realxianyu.VirtualGoods.Orders.{record_order_event}
use realxianyu.VirtualGoods.Exceptions.{ExceptionKey, record_ops_exception}

-- the arguments of `insert_callback`
pub record NewCallback : Type 0 where
  pub callback_type : String
  pub external_event_id : Option String
  pub dedupe_key : Option String
  pub xianyu_order_id : Option String
  pub payload : Payload
  pub raw_body : String
  pub headers : AuditHeaders
  pub signature : String
  pub verify_passed : Bool
  pub verify_error : String
  pub source_family : Option String
  pub event_kind : Option String

abbrev pub source_families : List String
source_families = "open_platform" ∷ "virtual_supply" ∷ "unknown" ∷ []

abbrev pub event_kinds : List String
event_kinds = "order" ∷ "refund" ∷ "voucher" ∷ "coupon" ∷ "code" ∷ "unknown" ∷ []

abbrev pub infer_source_family : Casing → String → String
infer_source_family c callback_type =
    let ctype = c.lower (c.strip callback_type) in
    if one_of ctype ("order" ∷ "refund" ∷ [])
    then "open_platform"
    else if one_of ctype ("voucher" ∷ "coupon" ∷ "code" ∷ [])
    then "virtual_supply"
    else "unknown"

abbrev pub infer_event_kind : Casing → String → String
infer_event_kind c callback_type =
    let ctype = c.lower (c.strip callback_type) in
    if one_of ctype event_kinds then ctype else "unknown"

-- a blank text counts as no key
abbrev pub event_key : Casing → Option String → Option String
event_key c none = none
event_key c (some t) = nonempty (c.strip t)

-- a = b of SQL, which NULL never meets
abbrev pub same_text : Option String → Option String → Bool
same_text none b = false
same_text (some a) none = false
same_text (some a) (some b) = a == b

-- the row has the event's external id, or has none and has its dedupe key
abbrev pub matches_event : Option String → Option String → Callback → Bool
matches_event ext ded r =
    same_text r.external_event_id ext
    || not (is_some r.external_event_id) && same_text r.dedupe_key ded

-- the row makes the INSERT fail: external_event_id is UNIQUE, and dedupe_key is among the rows
-- without an external id
abbrev pub clashes : Option String → Option String → Option String × Option String → Bool
clashes (some e) ded (row_ext, row_ded) = same_text row_ext (some e)
clashes none ded (row_ext, row_ded) = not (is_some row_ext) && same_text row_ded ded

abbrev pub event_of : Callback → Option String × Option String
event_of r = (r.external_event_id, r.dedupe_key)

abbrev pub conflicts : Option String → Option String → Callback → Bool
conflicts ext ded r = clashes ext ded (event_of r)

abbrev pub new_callback :
    ℕ → ℕ → Option String → Option String → String → String → NewCallback → Callback
new_callback i now ext ded family kind a = record {
  id = i;
  callback_type = a.callback_type;
  source_family = family;
  event_kind = kind;
  external_event_id = ext;
  dedupe_key = ded;
  xianyu_order_id = a.xianyu_order_id;
  payload = a.payload;
  raw_body = a.raw_body;
  headers = a.headers;
  signature = a.signature;
  verify_passed = a.verify_passed;
  verify_error = nonempty a.verify_error;
  processed = false;
  processed_at = none;
  claimed_by = none;
  claimed_at = none;
  claim_expires_at = none;
  last_process_error = none;
  attempt_count = 0;
  created_at = now;
}

abbrev pub id_or_zero : Option Callback → ℕ
id_or_zero none = 0
id_or_zero (some r) = r.id

-- the INSERT, or the SELECT of the row that it conflicts with; the Bool is `inserted`
unfoldable pub insert_row :
    ℕ
    → Option String
    → Option String
    → String
    → String
    → NewCallback
    → VirtualGoodsStore
    → VirtualGoodsStore × ℕ × Bool
unfolding find_where exists_where find_last_where
insert_row now ext ded family kind a s =
    if exists_where (conflicts ext ded) s.callbacks
    then (s, id_or_zero (find_last_where (matches_event ext ded) s.callbacks), false)
    else (
      record s {
        callbacks = s.callbacks ++ new_callback s.next_callback_id now ext ded family kind a ∷ [];
        next_callback_id = suc s.next_callback_id;
      },
      s.next_callback_id,
      true,
    )

abbrev pub unknown_kind_detail : String → NewCallback → Payload
unknown_kind_detail kind a = ("callback_type", a.callback_type) ∷ ("event_kind", kind) ∷ []

abbrev pub unknown_kind_event : ℕ → ℕ → String → NewCallback → OrderEvent
unknown_kind_event now callback_id kind a = record {
  id = 0;
  xianyu_order_id = a.xianyu_order_id;
  event_type = "callback_event_kind_unknown";
  event_kind = or_text kind "unknown";
  callback_id = if callback_id == 0 then none else some callback_id;
  from_status = none;
  to_status = none;
  result = some "ignored_kind";
  error_code = some "unknown_event_kind";
  is_exception = true;
  detail = unknown_kind_detail kind a;
  created_at = now;
}

abbrev pub unknown_kind_key : String → NewCallback → ExceptionKey
unknown_kind_key kind a = record {
  xianyu_order_id = a.xianyu_order_id;
  event_kind = or_text kind "unknown";
  exception_code = "unknown_event_kind";
}

-- the event and the exception that report a kind of event outside `event_kinds`
unfoldable pub report_unknown_kind :
    (String → String) → ℕ → ℕ → String → NewCallback → VirtualGoodsStore → VirtualGoodsStore
unfolding record_ops_exception
report_unknown_kind upper now callback_id kind a s =
    let s' = (record_order_event now (unknown_kind_event now callback_id kind a) s).0 in
    (record_ops_exception upper now (unknown_kind_key kind a) "P1" (unknown_kind_detail kind a)
      s').0

abbrev pub family_of : Casing → NewCallback → String
family_of c a =
    c.lower (c.strip (or_text (or_empty a.source_family) (infer_source_family c a.callback_type)))

abbrev pub kind_of : Casing → NewCallback → String
kind_of c a =
    c.lower (c.strip (or_text (or_empty a.event_kind) (infer_event_kind c a.callback_type)))

abbrev pub stored_kind : String → String
stored_kind kind = if one_of kind event_kinds then kind else "unknown"

-- the row that the arguments are stored in, or found in
abbrev pub insert_event :
    Casing → ℕ → NewCallback → VirtualGoodsStore → VirtualGoodsStore × ℕ × Bool
insert_event c now a s =
    insert_row now (event_key c a.external_event_id) (event_key c a.dedupe_key) (family_of c a)
      (stored_kind (kind_of c a)) a s

unfoldable pub insert_callback :
    Casing
    → (String → String)
    → ℕ
    → NewCallback
    → VirtualGoodsStore
    → VirtualGoodsStore × Result (ℕ × Bool)
unfolding insert_row report_unknown_kind
insert_callback c upper now a s =
    let (s', i, inserted) = insert_event c now a s in
    if not (is_some (event_key c a.external_event_id)) && not (is_some (event_key c a.dedupe_key))
    then (s, raised (value_error "insert_callback requires external_event_id or dedupe_key"))
    else if not (one_of (family_of c a) source_families)
    then (
      s,
      raised (value_error (text_append "Unsupported source_family: " (or_empty a.source_family))),
    )
    else if one_of (kind_of c a) event_kinds
    then (s', ok (i, inserted))
    else (report_unknown_kind upper now i (kind_of c a) a s', ok (i, inserted))
