-- ===== src/VirtualGoods/Exceptions.antt =====
-- The exception pool of `VirtualGoodsStore` in src/modules/virtual_goods/store.py: an exception that
-- occurs again is counted on the newest row that is not resolved.
pub mod Occurrences
use realxianyu.Base.{
  ℕ, suc, ◌+◌, Bool, not, ◌&&◌, Option, none, some, List, [], ◌∷◌, ◌++◌, String, ◌==◌, string_eq,
  nat_eq, if◌then◌else◌, or_text, or_empty, one_of,
}
use realxianyu.Base.Table.{update_where, find_last_where}
use realxianyu.VirtualGoods.Rows.{Payload, OpsException, ExceptionTransition, VirtualGoodsStore}

-- what `record_ops_exception` looks an exception up by
pub record ExceptionKey : Type 0 where
  pub xianyu_order_id : Option String
  pub event_kind : String
  pub exception_code : String

-- COALESCE(xianyu_order_id, '') = COALESCE(?, '') AND … AND status != 'resolved'
abbrev pub is_open_for : ExceptionKey → OpsException → Bool
is_open_for k x =
    or_empty x.xianyu_order_id == or_empty k.xianyu_order_id
    && x.event_kind == k.event_kind
    && x.exception_code == k.exception_code
    && not (x.status == "resolved")

abbrev pub has_exception_id : ℕ → OpsException → Bool
has_exception_id i x = x.id == i

-- str(severity or "P1").upper(), and "P2" for anything else; `upper` is Python's
abbrev pub severity_of : (String → String) → String → String
severity_of upper severity =
    let sev = upper (or_text severity "P1") in
    if one_of sev ("P0" ∷ "P1" ∷ "P2" ∷ "P3" ∷ []) then sev else "P2"

abbrev pub log_transition :
    ℕ → ℕ → Option String → String → Payload → VirtualGoodsStore → VirtualGoodsStore
log_transition now i from_status reason detail s =
    let t : ExceptionTransition = record {
      exception_id = i;
      from_status = from_status;
      to_status = "open";
      operator = "system";
      reason = reason;
      detail = detail;
      created_at = now;
    } in
    record s { exception_transitions = s.exception_transitions ++ t ∷ [] }

abbrev pub seen_again : ℕ → String → Payload → OpsException → OpsException
seen_again now sev detail x = record x {
  severity = sev;
  status = "open";
  last_seen_at = now;
  occurrence_count = x.occurrence_count + 1;
  detail = detail;
  updated_at = now;
}

unfoldable pub record_found :
    ℕ
    → ExceptionKey
    → String
    → Payload
    → VirtualGoodsStore
    → Option OpsException
    → VirtualGoodsStore × ℕ
unfolding update_where
record_found now k sev detail s (some row) =
    let s' = record s {
      exceptions = update_where (has_exception_id row.id) (seen_again now sev detail) s.exceptions;
    } in
    if or_text row.status "open" == "open" then (s', row.id) else (
      log_transition now row.id (some (or_text row.status "open")) "exception_reoccurred" detail s',
      row.id,
    )
record_found now k sev detail s none =
    let x : OpsException = record {
      id = s.next_exception_id;
      xianyu_order_id = k.xianyu_order_id;
      event_kind = k.event_kind;
      exception_code = k.exception_code;
      severity = sev;
      status = "open";
      first_seen_at = now;
      last_seen_at = now;
      occurrence_count = 1;
      detail = detail;
      resolved_at = none;
      created_at = now;
      updated_at = now;
    } in
    let s' = record s {
      exceptions = s.exceptions ++ x ∷ [];
      next_exception_id = suc s.next_exception_id;
    } in
    (log_transition now x.id none "exception_created" detail s', x.id)

unfoldable pub record_ops_exception :
    (String → String)
    → ℕ
    → ExceptionKey
    → String
    → Payload
    → VirtualGoodsStore
    → VirtualGoodsStore × ℕ
unfolding record_found find_last_where
record_ops_exception upper now k severity detail s =
    record_found now k (severity_of upper severity) detail s
      (find_last_where (is_open_for k) s.exceptions)
