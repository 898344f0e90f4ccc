-- ===== src/PriceExecution/Jobs.antt =====
-- The tables of `PriceExecutionService` in src/modules/orders/price_execution.py: creation and replay
-- of its jobs. The store is the two tables with what was sent outside: the calls of the operations
-- service and the notices.
use realxianyu.Base.{
  ℕ, suc, Bool, true, false, not, ◌&&◌, Option, none, some, List, [], ◌∷◌, ◌++◌, String, ◌==◌,
  nat_eq, string_eq, if◌then◌else◌, text_append, ◌||◌,
}
use realxianyu.Base.Table.{find_where, select_where}
use realxianyu.PriceExecution.Decision.{Decision, decide_target_price}
use realxianyu.PriceExecution.Service.{Kwargs, OpResult, Texts, or_text}

pub data PriceJobStatus : Type 0 where
  pending running success failed : PriceJobStatus

-- strategy_json: the decision and the scope; other entries of `strategy_meta` are kept in the
-- source and never read
pub record Strategy : Type 0 where
  pub decision : Decision
  pub price_scope : String

-- a row of price_update_jobs, prices in cents
pub record PriceJob : Type 0 where
  pub id : ℕ
  pub session_id : String
  pub order_id : String
  pub product_id : String
  pub strategy : Strategy
  pub from_price : ℕ
  pub buyer_offer_price : ℕ
  pub target_price : ℕ
  pub status : PriceJobStatus
  pub attempts : ℕ
  pub result : Option OpResult
  pub last_error : Option String
  pub created_at : ℕ
  pub updated_at : ℕ

pub data EventType : Type 0 where
  strategy_decided execution_started execution_finished execution_exception : EventType

pub data EventDetail : Type 0 where
  empty : EventDetail
  of_strategy : Strategy → EventDetail
  of_result : OpResult → String → EventDetail
  of_error : String → EventDetail

-- a row of price_update_events
pub record PriceEvent : Type 0 where
  pub job_id : ℕ
  pub event_type : EventType
  pub status : PriceJobStatus
  pub detail : EventDetail
  pub created_at : ℕ

-- the text that `_notify_failure` sends, by its fields
pub record FailureNotice : Type 0 where
  pub job_id : ℕ
  pub session_id : String
  pub product_id : String
  pub target_price : ℕ
  pub error : String

pub record PriceStore : Type 0 where
  pub jobs : List PriceJob
  pub next_id : ℕ
  pub events : List PriceEvent
  pub calls : List Kwargs
  pub notices : List FailureNotice

-- what a method of the service returns or raises
pub data PriceResult (A : Type 0) : Type 0 where
  ok : A → PriceResult A
  value_error : String → PriceResult A
  job_not_found : ℕ → PriceResult A

abbrev pub is_pending : PriceJobStatus → Bool
is_pending pending = true
is_pending running = false
is_pending success = false
is_pending failed = false

abbrev pub has_id : ℕ → PriceJob → Bool
has_id i j = j.id == i

abbrev pub append_event : PriceStore → ℕ → EventType → PriceJobStatus → EventDetail → ℕ → PriceStore
append_event s i ty st d now = record s {
  events =
      s.events
      ++ (record { job_id = i; event_type = ty; status = st; detail = d; created_at = now }) ∷ [];
}

unfoldable pub get_job : PriceStore → ℕ → Option PriceJob
get_job s i = find_where (has_id i) s.jobs

-- the arguments of `create_job`; an absent `price_scope` is `none`
pub record JobRequest : Type 0 where
  pub session_id : String
  pub product_id : String
  pub order_id : String
  pub from_price : ℕ
  pub buyer_offer_price : ℕ
  pub min_price : ℕ
  pub price_scope : Option String
  pub meta_scope : Option String

unfoldable pub resolved_scope : Texts → JobRequest → String
resolved_scope t r = t.lower (
    t.strip (
      or_text r.price_scope
        (or_text r.meta_scope (if t.strip r.order_id == "" then "product" else "order"))))

abbrev pub new_job : ℕ → ℕ → JobRequest → Strategy → PriceJob
new_job i now r st = record {
  id = i;
  session_id = r.session_id;
  order_id = r.order_id;
  product_id = r.product_id;
  strategy = st;
  from_price = st.decision.from_price;
  buyer_offer_price = st.decision.buyer_offer_price;
  target_price = st.decision.target_price;
  status = pending;
  attempts = 0;
  result = none;
  last_error = none;
  created_at = now;
  updated_at = now;
}

abbrev pub insert_job : PriceStore → ℕ → JobRequest → Strategy → PriceStore
insert_job s now r st =
    append_event
      (record s { jobs = s.jobs ++ new_job s.next_id now r st ∷ []; next_id = suc s.next_id })
      s.next_id strategy_decided pending (of_strategy st) now

unfoldable pub create_job :
    Texts → PriceStore → ℕ → JobRequest → PriceStore × PriceResult (Option PriceJob)
unfolding resolved_scope get_job decide_target_price
create_job t s now r =
    let scope = resolved_scope t r in
    let st : Strategy = record {
      decision = decide_target_price r.from_price r.buyer_offer_price r.min_price;
      price_scope = scope;
    } in
    let s' = insert_job s now r st in
    if not (scope == "order" || scope == "product")
    then (s, value_error (text_append "Unsupported price_scope: " scope))
    else if scope == "order" && t.strip r.order_id == ""
    then (s, value_error "order_id is required for order price execution")
    else if scope == "product" && t.strip r.product_id == ""
    then (s, value_error "product_id is required for product price execution")
    else (s', ok (get_job s' s.next_id))

abbrev pub Replay : Type 0
Replay = PriceJob × List PriceEvent

abbrev pub of_job : ℕ → PriceEvent → Bool
of_job i e = e.job_id == i

unfoldable pub replay_job : PriceStore → ℕ → PriceResult Replay
unfolding get_job select_where
replay_job s i = elim (get_job s i) [
  | none ↦ job_not_found i
  | some j ↦ ok (j, select_where (of_job i) s.events)
]
