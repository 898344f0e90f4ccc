-- ===== src/VirtualGoods/Process/Types.antt =====
-- What src/modules/virtual_goods/callbacks.py is given, what it answers, and how it reads its rows.
use realxianyu.Base.{
  ℕ, Bool, false, Option, none, some, List, [], ◌∷◌, String, string_eq, if◌then◌else◌, text_append,
  or_text, or_empty, one_of, Casing,
}
use realxianyu.Base.Result.{Error, Result}
use realxianyu.VirtualGoods.Status.{status_word}
use realxianyu.VirtualGoods.Rows.{Payload, Order, Callback, VirtualGoodsStore}
use realxianyu.VirtualGoods.Process.Verify.{Config}

-- what json.loads makes of a body
pub data Parsed : Type 0 where
  malformed not_an_object : Parsed
  object : Payload → Parsed

-- Python's strings, hashlib, json and str(exc), and the configuration
pub record Env : Type 0 where
  pub casing : Casing
  pub upper : String → String
  pub md5_hex : String → String
  pub json_loads : String → Parsed
  pub str_exc : Error → String
  pub config : Config

-- the readings of the clock in one call of `process`
pub record Times : Type 0 where
  pub insert_at : ℕ
  pub claim_at : ℕ
  pub lease_at : ℕ
  pub order_at : ℕ
  pub mark_at : ℕ

pub record Request : Type 0 where
  pub source_family : String
  pub event_kind : String
  pub raw_body : String
  pub headers : Payload
  pub query_params : Payload

-- the dict that `process` returns
pub record Answer : Type 0 where
  pub accepted : Bool
  pub duplicate : Bool
  pub processed : Bool
  pub processed_state : String
  pub callback_id : ℕ
  pub error : Option String
  pub status : Option String
  pub blocked : Option String

abbrev pub answer : Bool → Bool → Bool → String → ℕ → Option String → Answer
answer accepted duplicate processed state i error = record {
  accepted = accepted;
  duplicate = duplicate;
  processed = processed;
  processed_state = state;
  callback_id = i;
  error = error;
  status = none;
  blocked = none;
}

abbrev pub Reply : Type 0
Reply = VirtualGoodsStore × Result Answer

abbrev pub normalize_source_family : Casing → String → String
normalize_source_family c source_family =
    let family = c.lower (c.strip source_family) in
    if one_of family ("open_platform" ∷ "virtual_supply" ∷ [])
    then family
    else if one_of family ("open" ∷ "platform" ∷ "openplatform" ∷ [])
    then "open_platform"
    else if one_of family ("supply" ∷ "virtual" ∷ "virtualsupply" ∷ [])
    then "virtual_supply"
    else ""

abbrev pub order_id_keys : List String
order_id_keys = "xianyu_order_id" ∷ "order_id" ∷ "orderNo" ∷ "order_no" ∷ []

abbrev pub product_id_keys : List String
product_id_keys = "xianyu_product_id" ∷ "product_id" ∷ "item_id" ∷ []

abbrev pub dedupe_key_of : (String → String) → String → String → String → String
dedupe_key_of md5_hex callback_type order_id raw_body =
    md5_hex (
      text_append callback_type (text_append "|" (text_append order_id (text_append "|" raw_body))))

-- None beside an external event id
abbrev pub dedupe_unless : Option String → String → Option String
dedupe_unless none key = some key
dedupe_unless (some _) key = none

-- the claimed callback, as the code reads it back
pub record Claimed : Type 0 where
  pub callback_id : ℕ
  pub payload : Payload
  pub event_kind : String
  pub order_id : String
  pub verify_passed : Bool
  pub verify_error : Option String
  pub duplicate : Bool

abbrev pub taken_over : Option Order → Bool
taken_over none = false
taken_over (some o) = o.manual_takeover

abbrev pub previous_word : Option Order → String
previous_word none = ""
previous_word (some o) = status_word o.order_status

abbrev pub is_processed : Option Callback → Bool
is_processed none = false
is_processed (some r) = r.processed

abbrev pub is_verified : Option Callback → Bool
is_verified none = false
is_verified (some r) = r.verify_passed

abbrev pub verify_error_of : Option Callback → String
verify_error_of none = "invalid_signature"
verify_error_of (some r) = or_text (or_empty r.verify_error) "invalid_signature"
