-- ===== src/VirtualGoods/Signing.antt =====
-- src/integrations/xianguanjia/signing.py: the signatures of the open platform. `md5_hex` is the
-- hexadecimal MD5 of the UTF-8 bytes of a text, from hashlib; numbers are given as their texts.
use realxianyu.Base.{
  Bool, ◌&&◌, String, List, [], ◌∷◌, text_append, ◌==◌, string_eq, if◌then◌else◌, Casing, is_ascii,
}
use realxianyu.Base.Result.{Result, ok, raised, type_error}

-- ",".join(parts)
abbrev pub comma_joined : List String → String
comma_joined [] = ""
comma_joined (x ∷ []) = x
comma_joined (x ∷ y ∷ rest) = text_append x (text_append "," (comma_joined (y ∷ rest)))

module _ (md5_hex : String → String) where
  unfoldable pub sign_open_platform_request : String → String → String → String → String
  sign_open_platform_request app_key app_secret timestamp body =
      md5_hex (comma_joined (app_key ∷ md5_hex body ∷ timestamp ∷ app_secret ∷ []))

  unfoldable pub sign_business_request : String → String → String → String → String → String
  sign_business_request app_key app_secret seller_id timestamp body =
      md5_hex (comma_joined (app_key ∷ md5_hex body ∷ timestamp ∷ seller_id ∷ app_secret ∷ []))

  unfoldable pub sign_virtual_supply_request :
      String → String → String → String → String → String → String
  sign_virtual_supply_request app_id app_secret mch_id mch_secret timestamp body =
      md5_hex
        (comma_joined (app_id ∷ app_secret ∷ md5_hex body ∷ timestamp ∷ mch_id ∷ mch_secret ∷ []))

  -- hmac.compare_digest(expected, sign.strip().lower()), which compares ASCII texts only
  unfoldable pub compare_digest : Casing → String → String → Result Bool
  unfolding is_ascii
  compare_digest c expected sign =
      let given = c.lower (c.strip sign) in
      if is_ascii expected && is_ascii given
      then ok (expected == given)
      else raised (type_error "comparing strings with non-ASCII characters is not supported")

  unfoldable pub verify_open_platform_callback_signature :
      Casing → String → String → String → String → String → Result Bool
  unfolding sign_open_platform_request compare_digest
  verify_open_platform_callback_signature c app_key app_secret timestamp sign body =
      compare_digest c (sign_open_platform_request app_key app_secret timestamp body) sign

  unfoldable pub verify_business_callback_signature :
      Casing → String → String → String → String → String → String → Result Bool
  unfolding sign_business_request compare_digest
  verify_business_callback_signature c app_key app_secret seller_id timestamp sign body =
      compare_digest c (sign_business_request app_key app_secret seller_id timestamp body) sign

  unfoldable pub verify_virtual_supply_callback_signature :
      Casing → String → String → String → String → String → String → String → Result Bool
  unfolding sign_virtual_supply_request compare_digest
  verify_virtual_supply_callback_signature c app_id app_secret mch_id mch_secret timestamp sign
        body =
      compare_digest c
        (sign_virtual_supply_request app_id app_secret mch_id mch_secret timestamp body) sign
