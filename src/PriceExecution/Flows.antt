-- ===== src/PriceExecution/Flows.antt =====
-- What `create_job` of src/modules/orders/price_execution.py answers.
use realxianyu.Base.{
  not, ◌&&◌, ◌||◌, ℕ, ◌<◌, ◌≡◌, refl, ap, ◌⊎◌, inl, inr, Option, some, List, [], ◌∷◌, ◌++◌, String,
  arith, ◌==◌, nat_eq, string_eq, if_both,
}
use realxianyu.Base.Table.{find_where}
use realxianyu.Base.Lists.{All}
use realxianyu.PriceExecution.Decision.{decide_target_price}
use realxianyu.PriceExecution.Service.{Texts}
use realxianyu.PriceExecution.Jobs.{
  pending, PriceJob, PriceStore, JobRequest, resolved_scope, PriceResult, ok, value_error, get_job,
  create_job, insert_job, new_job, has_id, Strategy,
}

new_id-found :
    (js : List PriceJob) (j : PriceJob)
    → All (λ x. x.id < j.id) js
    → find_where (has_id j.id) (js ++ j ∷ []) ≡ some j
unfolding find_where
new_id-found [] j h = ground arith
new_id-found (x ∷ js) j h = ground (arith, h.0, new_id-found js j h.1)

-- a refusal, or a new pending job with the decided price
unfoldable pub Creates :
    PriceStore → JobRequest → PriceStore × PriceResult (Option PriceJob) → Type 0
Creates s r done =
    ((e : String) × (done ≡ (s, value_error e)))
    ⊎ ((j : PriceJob) × (done.1 ≡ ok (some j))
        × (get_job done.0 s.next_id ≡ some j)
        × (j.status ≡ pending)
        × (j.attempts ≡ 0)
        × (j.target_price
            ≡ (decide_target_price r.from_price r.buyer_offer_price r.min_price).target_price))

Creates-refused : (s : PriceStore) (r : JobRequest) (e : String) → Creates s r (s, value_error e)
unfolding Creates
Creates-refused s r e = inl (e, refl)

Creates-inserted :
    (s : PriceStore) (now : ℕ) (r : JobRequest) (scope : String)
    → All (λ j. j.id < s.next_id) s.jobs
    → let st : Strategy = record {
      decision = decide_target_price r.from_price r.buyer_offer_price r.min_price;
      price_scope = scope;
    } in
      let s' = insert_job s now r st in Creates s r (s', ok (get_job s' s.next_id))
unfolding Creates get_job
Creates-inserted s now r scope h =
    let st : Strategy = record {
      decision = decide_target_price r.from_price r.buyer_offer_price r.min_price;
      price_scope = scope;
    } in
    let j = new_job s.next_id now r st in
    let found = new_id-found s.jobs j h in inr (j, ap ok found, found, refl, refl, refl)

-- Where the ids of the jobs are below the next id, `create_job` either refuses with an error and an unchanged
-- store, or returns the job that the next id is found at afterwards: pending, never attempted, with the
-- decided target price.
pub create_job_lem :
    (t : Texts) (s : PriceStore) (now : ℕ) (r : JobRequest)
    → All (λ j. j.id < s.next_id) s.jobs
    → Creates s r (create_job t s now r)
unfolding create_job
create_job_lem t s now r h =
    let scope = resolved_scope t r in
    if_both (Creates s r) (not (scope == "order" || scope == "product")) (Creates-refused s r _) (
      if_both (Creates s r) (scope == "order" && t.strip r.order_id == "") (Creates-refused s r _) (
        if_both (Creates s r) (scope == "product" && t.strip r.product_id == "")
          (Creates-refused s r _) (Creates-inserted s now r scope h)))
