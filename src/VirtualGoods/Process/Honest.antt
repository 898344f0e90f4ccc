-- ===== src/VirtualGoods/Process/Honest.antt =====
-- What a reply of `process` of src/modules/virtual_goods/callbacks.py with success promises.
use realxianyu.Base.{
  ◌≡◌, refl, true, Option, none, some, [], String, ◌==◌, string_eq, nat_eq, if◌then◌else◌,
  if_both_with,
}
use realxianyu.Base.Result.{ok, raised}
use realxianyu.VirtualGoods.Rows.{Payload, VirtualGoodsStore}
use realxianyu.VirtualGoods.Callbacks.Invariant.{CallbacksValid}
use realxianyu.VirtualGoods.Process.{process, process_payload, with_payload}
use realxianyu.VirtualGoods.Process.Types.{
  Env, Times, Parsed, malformed, not_an_object, object, Request, Reply,
}
use realxianyu.VirtualGoods.Process.Applied.{succeeds, Known, Applied, process_payload-Applied}

-- what the body of a request is read as, if it is JSON
abbrev pub parsed_payload : Parsed → Option Payload
parsed_payload malformed = none
parsed_payload not_an_object = some []
parsed_payload (object payload) = some payload

abbrev pub body_payload : Env → String → Option Payload
body_payload env raw_body =
    if raw_body == "" then some [] else parsed_payload (env.json_loads raw_body)

module _ (env : Env) (t : Times) (req : Request) where
  -- a reply with success is about the event of the request, which is stored and processed
  abbrev pub Honest : Reply → Type 0
  Honest (s, raised e) = Unit
  Honest (s, ok ans) =
      succeeds ans ≡ true
      → (payload : Payload) × (body_payload env req.raw_body ≡ some payload)
        × Known env t req payload ans.callback_id s

  Applied-Honest :
      (payload : Payload) (r : Reply)
      → body_payload env req.raw_body ≡ some payload
      → Applied env t req payload r
      → Honest r
  Applied-Honest payload (s, raised e) read h = tt
  Applied-Honest payload (s, ok ans) read h = λ success. (payload, read, h success)

  payload-Honest :
      (payload : Payload) (s : VirtualGoodsStore)
      → body_payload env req.raw_body ≡ some payload
      → CallbacksValid s
      → Honest (process_payload env t req payload s)
  payload-Honest payload s read v =
      Applied-Honest payload (process_payload env t req payload s) read
        (process_payload-Applied env t req payload s v)

  with_payload-Honest :
      (parsed : Parsed) (s : VirtualGoodsStore)
      → body_payload env req.raw_body ≡ parsed_payload parsed
      → CallbacksValid s
      → Honest (with_payload env t req s parsed)
  with_payload-Honest malformed s read v = tt
  with_payload-Honest not_an_object s read v = payload-Honest [] s read v
  with_payload-Honest (object payload) s read v = payload-Honest payload s read v

  pub process-Honest : (s : VirtualGoodsStore) → CallbacksValid s → Honest (process env t req s)
  unfolding process
  process-Honest s v =
      if_both_with Honest (req.raw_body == "") (λ e. payload-Honest [] s (rw e refl) v)
        (λ e. with_payload-Honest (env.json_loads req.raw_body) s (rw e refl) v)
