-- ===== src/VirtualGoods/Process/Verify.antt =====
-- `_verify` of src/modules/virtual_goods/callbacks.py: whether a callback carries the signature of
-- the configured secrets.
use realxianyu.Base.{
  Bool, false, ◌||◌, String, ◌==◌, string_eq, if◌then◌else◌, or_text, or_empty, Casing, dict_get,
}
use realxianyu.Base.Result.{Result, ok, raised}
use realxianyu.VirtualGoods.Rows.{Payload}
use realxianyu.VirtualGoods.Signing.{
  verify_open_platform_callback_signature, verify_virtual_supply_callback_signature,
}

-- config["xianguanjia"], where a missing entry is ""
pub record Config : Type 0 where
  pub app_key : String
  pub app_secret : String
  pub vs_app_id : String
  pub vs_mch_id : String
  pub vs_mch_secret : String

pub record Verdict : Type 0 where
  pub passed : Bool
  pub signature : String
  pub error : String

abbrev pub verdict : Bool → String → String → Result Verdict
verdict passed signature error =
    ok (record { passed = passed; signature = signature; error = error })

-- the value under the first of two keys in the headers, else in the query
abbrev pub header_or_query : Payload → Payload → String → String → String
header_or_query headers query k k' = or_text (or_empty (dict_get k headers)) (
    or_text (or_empty (dict_get k' headers))
      (or_text (or_empty (dict_get k query)) (or_empty (dict_get k' query))))

-- the exception of a comparison is not caught
abbrev pub checked : Result Bool → String → Result Verdict
checked (raised e) signature = raised e
checked (ok passed) signature =
    verdict passed signature (if passed then "" else "invalid_signature")

unfoldable pub verify :
    (String → String) → Casing → Config → String → String → Payload → Payload → Result Verdict
unfolding dict_get verify_open_platform_callback_signature verify_virtual_supply_callback_signature
verify md5_hex c cfg source_family raw_body headers query =
    let sign = c.lower (c.strip (header_or_query headers query "x-sign" "sign")) in
    let ts = c.strip (header_or_query headers query "x-timestamp" "timestamp") in
    let app_id = or_text (or_empty (dict_get "app_id" query)) cfg.vs_app_id in
    let mch_id = or_text (or_empty (dict_get "mch_id" query)) cfg.vs_mch_id in
    if sign == "" || ts == ""
    then verdict false sign "missing_signature_or_timestamp"
    else if source_family == "open_platform"
    then (if cfg.app_key == "" || cfg.app_secret == ""
        then verdict false sign "missing_open_platform_secret"
        else checked
            (verify_open_platform_callback_signature md5_hex c cfg.app_key cfg.app_secret ts sign
              raw_body)
            sign)
    else if app_id == "" || cfg.app_secret == "" || mch_id == "" || cfg.vs_mch_secret == ""
    then verdict false sign "missing_virtual_supply_secret"
    else checked
        (verify_virtual_supply_callback_signature md5_hex c app_id cfg.app_secret mch_id
          cfg.vs_mch_secret ts sign raw_body)
        sign
