-- ===== src/VirtualGoods/Process/Again.antt =====
-- A callback that `process` of src/modules/virtual_goods/callbacks.py has applied is not applied again.
use realxianyu.Base.{
  ℕ, ◌≡◌, refl, subst, Bool, true, false, none, [], String, arith, ◌==◌, string_eq, nat_eq,
  if◌then◌else◌, if_both_with,
}
use realxianyu.Base.Result.{Result, ok, raised}
use realxianyu.VirtualGoods.Rows.{Payload, VirtualGoodsStore}
use realxianyu.VirtualGoods.Callbacks.Lease.{get_callback}
use realxianyu.VirtualGoods.Callbacks.Invariant.{CallbacksValid, SameTables, SameTables-refl}
use realxianyu.VirtualGoods.Callbacks.Events.{insert_callback-again}
use realxianyu.VirtualGoods.Process.Target.{normalize_event_kind}
use realxianyu.VirtualGoods.Process.Verify.{Verdict}
use realxianyu.VirtualGoods.Process.{
  process, process_payload, with_payload, after_insert, store_verified, consider, callback_of,
  store_callback, verdict_of,
}
use realxianyu.VirtualGoods.Process.Types.{
  Env, Times, Parsed, malformed, not_an_object, object, Request, Answer, answer, Reply,
  is_processed,
}
use realxianyu.VirtualGoods.Process.Applied.{
  succeeds, family, Known, Applied, process_payload-Applied,
}

-- the answer about a processed callback that is delivered again, unless its verification raised
abbrev pub duplicate_unless_raised : ℕ → Result Verdict → Result Answer
duplicate_unless_raised i (raised e) = raised e
duplicate_unless_raised i (ok v) = ok (answer true true false "processed" i none)

module _ (env : Env) (t : Times) (req : Request) (payload : Payload) where
  -- a request with the same body, kind and source, delivered later
  abbrev pub redelivered : Payload → Payload → Request
  redelivered headers query = record req { headers = headers; query_params = query }

  -- the reply that reports the duplicate, or what the verification raised, and changes no table
  abbrev pub IsDuplicate : Result Verdict → ℕ → VirtualGoodsStore → Reply → Type 0
  IsDuplicate v i s r = SameTables r.0 s × (r.1 ≡ duplicate_unless_raised i v)

  after_insert-IsDuplicate :
      (t' : Times) (w : Verdict) (kind : String) (i : ℕ) (s : VirtualGoodsStore)
      (r : VirtualGoodsStore × Result (ℕ × Bool))
      → SameTables r.0 s
      → r.1 ≡ ok (i, false)
      → is_processed (get_callback i s) ≡ true
      → IsDuplicate (ok w) i s (after_insert env t' kind r)
  unfolding consider get_callback
  after_insert-IsDuplicate t' w kind i s (s', o) same e done =
      let done' : is_processed (get_callback i s') ≡ true =
        rw (SameTables.same_callbacks same) done in
      rw (e, done') (same, refl)

  store_verified-IsDuplicate :
      (t' : Times) (headers query : Payload) (v : Result Verdict) (i : ℕ) (s : VirtualGoodsStore)
      → Known env t req payload i s
      → IsDuplicate v i s
          (store_verified env t' (redelivered headers query) payload (family env t req payload) v s)
  store_verified-IsDuplicate t' headers query (raised e) i s k = (SameTables-refl s, refl)
  store_verified-IsDuplicate t' headers query (ok v) i s k =
      let req' = redelivered headers query in
      let found =
        insert_callback-again env.casing env.upper t'.insert_at
          (callback_of env t' req' payload (family env t req payload) v) i s
          (record { has_key = k.accepted.has_key; known_family = k.accepted.known_family })
          k.located in
      after_insert-IsDuplicate t' v (normalize_event_kind env.casing req.event_kind) i s
        (store_callback env t' req' payload (family env t req payload) v s) found.0 found.1
        k.is_done

  process_payload-IsDuplicate :
      (t' : Times) (headers query : Payload) (i : ℕ) (s : VirtualGoodsStore)
      → Known env t req payload i s
      → IsDuplicate
          (verdict_of env t' (redelivered headers query))
          i
          s
          (process_payload env t' (redelivered headers query) payload s)
  unfolding process_payload
  process_payload-IsDuplicate t' headers query i s k =
      let v = verdict_of env t' (redelivered headers query) in
      if_both_with (IsDuplicate v i s) (family env t req payload == "")
        (λ unknown. absurd (ground (arith, k.known_family, unknown)))
        (λ _. store_verified-IsDuplicate t' headers query v i s k)

module _ (env : Env) (t t' : Times) (req : Request) (headers query : Payload) where
  abbrev second : Request
  second = redelivered env t req [] headers query

  -- what a second delivery does after a reply that reports the callback as processed
  abbrev Repeats : (VirtualGoodsStore → Reply) → Reply → Type 0
  Repeats again (s, raised e) = Unit
  Repeats again (s, ok ans) =
      succeeds ans ≡ true
      → IsDuplicate env t req [] (verdict_of env t' second) ans.callback_id s (again s)

  Applied-Repeats :
      (payload : Payload) (r : Reply)
      → Applied env t req payload r
      → Repeats (process_payload env t' second payload) r
  Applied-Repeats payload (s, raised e) h = tt
  Applied-Repeats payload (s, ok ans) h = λ processed.
      process_payload-IsDuplicate env t req payload t' headers query ans.callback_id s (h processed)

  payload-Repeats :
      (payload : Payload) (s : VirtualGoodsStore)
      → CallbacksValid s
      → Repeats (process_payload env t' second payload) (process_payload env t req payload s)
  payload-Repeats payload s v =
      Applied-Repeats payload (process_payload env t req payload s)
        (process_payload-Applied env t req payload s v)

  -- both deliveries read the body in the same way
  body-Repeats :
      (empty : Bool) (parsed : Parsed) (s : VirtualGoodsStore)
      → CallbacksValid s
      → Repeats
          (λ s'.
            if empty
            then process_payload env t' second [] s'
            else with_payload env t' second s' parsed)
          (if empty then process_payload env t req [] s else with_payload env t req s parsed)
  body-Repeats true parsed s v = payload-Repeats [] s v
  body-Repeats false malformed s v = tt
  body-Repeats false not_an_object s v = payload-Repeats [] s v
  body-Repeats false (object payload) s v = payload-Repeats payload s v

  process-Repeats :
      (s : VirtualGoodsStore)
      → CallbacksValid s
      → Repeats (process env t' second) (process env t req s)
  unfolding process
  process-Repeats s v = body-Repeats (req.raw_body == "") (env.json_loads req.raw_body) s v

-- When `process` has reported success on a valid callback table, which is that the callback was
-- processed now or before, a second delivery of the same body, kind and source family, at any time
-- and with any headers and query, changes neither the callbacks nor the orders. It is answered as a
-- duplicate of that callback, unless the verification of its signature raises, which is then what
-- `process` raises.
pub process_again :
    (env : Env) (t t' : Times) (req : Request) (headers query : Payload) (s s' : VirtualGoodsStore)
    (ans : Answer)
    → CallbacksValid s
    → process env t req s ≡ (s', ok ans)
    → succeeds ans ≡ true
    → (let req' = record req { headers = headers; query_params = query } in
        let r = process env t' req' s' in
        SameTables r.0 s'
        × (r.1 ≡ duplicate_unless_raised ans.callback_id (verdict_of env t' req')))
process_again env t t' req headers query s s' ans v e success =
    subst (Repeats env t t' req headers query (process env t' (second env t t' req headers query)))
      e (process-Repeats env t t' req headers query s v) success
