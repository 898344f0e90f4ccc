-- ===== src/VirtualGoods/Ingress/Acks.antt =====
-- What an acknowledgement of src/modules/virtual_goods/ingress.py promises.
use realxianyu.Base.{
  ℕ, ◌≡◌, subst, true, ◌||◌, some, String, arith, ◌==◌, string_eq, nat_eq, if_both,
}
use realxianyu.Base.Result.{Result, ok, raised}
use realxianyu.VirtualGoods.Rows.{Payload, VirtualGoodsStore}
use realxianyu.VirtualGoods.Callbacks.Invariant.{CallbacksValid}
use realxianyu.VirtualGoods.Process.Applied.{succeeds, Known}
use realxianyu.VirtualGoods.Process.Honest.{body_payload, Honest, process-Honest}
use realxianyu.VirtualGoods.Process.{process}
use realxianyu.VirtualGoods.Process.Types.{Env, Times, Request, Answer, Reply}
use realxianyu.VirtualGoods.Ingress.{
  Ack, parse_entry, map_external_ack, acknowledge, handle, normalize_keys,
}

map_external_ack-succeeds : (a : Answer) → (map_external_ack a).code ≡ 0 → succeeds a ≡ true
unfolding map_external_ack
map_external_ack-succeeds a code = ground (arith, code)

module _ (env : Env) (t : Times) (callback_type body : String) (headers query : Payload) where
  -- the request that the delivery is handed on as
  abbrev pub request_of : Request
  request_of =
      let (family, kind) = parse_entry env.casing callback_type in
      record {
        source_family = family;
        event_kind = kind;
        raw_body = body;
        headers = normalize_keys env.casing headers;
        query_params = normalize_keys env.casing query;
      }

  abbrev Acknowledged : VirtualGoodsStore × Result Ack → Type 0
  Acknowledged (s, raised e) = Unit
  Acknowledged (s, ok ack) =
      ack.code ≡ 0
      → (i : ℕ) × (payload : Payload) × (body_payload env body ≡ some payload)
        × Known env t request_of payload i s

  acknowledge-Acknowledged : (r : Reply) → Honest env t request_of r → Acknowledged (acknowledge r)
  acknowledge-Acknowledged (s, raised e) h = tt
  acknowledge-Acknowledged (s, ok a) h = λ code.
      let (payload, read, known) = h (map_external_ack-succeeds a code) in
      (a.callback_id, payload, read, known)

  handle-Acknowledged :
      (s : VirtualGoodsStore)
      → CallbacksValid s
      → Acknowledged (handle env t callback_type body headers query s)
  unfolding handle
  handle-Acknowledged s v =
      let (family, kind) = parse_entry env.casing callback_type in
      if_both Acknowledged (family == "" || kind == "") (λ code. absurd (ground (arith, code)))
        (acknowledge-Acknowledged (process env t request_of s)
          (process-Honest env t request_of s v))

-- When a delivery on a valid callback table is acknowledged with code 0, its body was read, and the
-- event that the body carries is stored under an id whose callback is marked as processed.
pub handle_acknowledged :
    (env : Env) (t : Times) (callback_type body : String) (headers query : Payload)
    (s s' : VirtualGoodsStore) (ack : Ack)
    → CallbacksValid s
    → handle env t callback_type body headers query s ≡ (s', ok ack)
    → ack.code ≡ 0
    → (i : ℕ) × (payload : Payload) × (body_payload env body ≡ some payload)
      × Known env t (request_of env t callback_type body headers query) payload i s'
handle_acknowledged env t callback_type body headers query s s' ack v e =
    subst (Acknowledged env t callback_type body headers query) e
      (handle-Acknowledged env t callback_type body headers query s v)
