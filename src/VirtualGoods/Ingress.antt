-- ===== src/VirtualGoods/Ingress.antt =====
-- src/modules/virtual_goods/ingress.py: what the platform is answered when it delivers a callback.
pub mod Acks
use realxianyu.Base.{
  ℕ, Bool, true, false, ◌&&◌, ◌||◌, Option, none, some, String, ◌==◌, string_eq, if◌then◌else◌,
  or_text, or_empty, map, Casing, split_once,
}
use realxianyu.Base.Result.{Result, ok, raised}
use realxianyu.VirtualGoods.Rows.{Payload, VirtualGoodsStore}
use realxianyu.VirtualGoods.Process.{process}
use realxianyu.VirtualGoods.Process.Types.{Env, Times, Request, Answer}

pub record Ack : Type 0 where
  pub code : ℕ
  pub msg : String

abbrev pub success_ack : Ack
success_ack = record { code = 0; msg = "OK" }

abbrev pub normalize_keys : Casing → Payload → Payload
normalize_keys c p = map (λ ((k, v) : String × String). (c.lower k, v)) p

abbrev pub trimmed_pair : Casing → String × String → String × String
trimmed_pair c (family, kind) = (c.lower (c.strip family), c.lower (c.strip kind))

-- two blank texts for an entry without a separator
abbrev pub split_entry :
    Casing → Option (String × String) → Option (String × String) → String × String
split_entry c (some slash) colon = trimmed_pair c slash
split_entry c none (some colon) = trimmed_pair c colon
split_entry c none none = ("", "")

unfoldable pub parse_entry : Casing → String → String × String
unfolding split_once
parse_entry c callback_type =
    let raw = c.lower (c.strip callback_type) in
    split_entry c (split_once "/" raw) (split_once ":" raw)

unfoldable pub map_external_ack : Answer → Ack
map_external_ack a =
    if a.processed || a.duplicate && a.processed_state == "processed"
    then success_ack
    else record { code = 1; msg = or_text (or_empty a.error) "FAIL" }

abbrev pub acknowledge : VirtualGoodsStore × Result Answer → VirtualGoodsStore × Result Ack
acknowledge (s, raised e) = (s, raised e)
acknowledge (s, ok a) = (s, ok (map_external_ack a))

-- a delivery: the type of the callback, its decoded body, its headers and its query
unfoldable pub handle :
    Env
    → Times
    → String
    → String
    → Payload
    → Payload
    → VirtualGoodsStore
    → VirtualGoodsStore × Result Ack
unfolding map_external_ack process parse_entry
handle env t callback_type body headers query s =
    let (family, kind) = parse_entry env.casing callback_type in
    if family == "" || kind == ""
    then (s, ok (record { code = 1; msg = "MISSING_SOURCE_FAMILY_OR_EVENT_KIND" }))
    else acknowledge (
        process env t
          (record {
            source_family = family;
            event_kind = kind;
            raw_body = body;
            headers = normalize_keys env.casing headers;
            query_params = normalize_keys env.casing query;
          })
          s)
