-- ===== src/PriceExecution/Execute.antt =====
-- `execute_job` of src/modules/orders/price_execution.py: the gate from pending to running, the change
-- of the price by the operations service, and the record of its outcome. One reading of the clock
-- stands for those within one execution.
pub mod Effects
use realxianyu.Base.{
  ℕ, suc, Bool, false, ◌&&◌, Option, none, some, List, [], ◌∷◌, ◌++◌, String, ◌==◌, nat_eq,
  string_eq, if◌then◌else◌, text_take, ltb,
}
use realxianyu.Base.Table.{update_where, count_where}
use realxianyu.PriceExecution.Service.{
  Scope, order, product, text, cents, price, Kwargs, OpResult, Outcome, returned, raised, Method,
  OperationsService, Texts, Invoked, invoke_with_supported_kwargs, normalize_result, failure,
  or_text,
}
use realxianyu.PriceExecution.Jobs.{
  PriceJobStatus, PriceJob, PriceStore, PriceResult, is_pending, has_id, append_event, get_job,
  Replay, replay_job, running, success, failed, execution_started, execution_finished,
  execution_exception, empty, of_result, of_error, job_not_found,
}

-- `_price_scope_for`
unfoldable pub price_scope_for : Texts → PriceJob → Scope
price_scope_for t j =
    let scope = t.lower (t.strip j.strategy.price_scope) in
    if scope == "order"
    then order
    else if scope == "product"
    then product
    else if t.strip j.order_id == ""
    then product
    else order

abbrev pub first_method : Option Method → Option Method → Option Method
first_method none o = o
first_method (some m) o = some m

abbrev pub order_variants : String → PriceJob → List Kwargs
order_variants o j =
    (("order_id", text o) ∷ ("order_price", cents j.target_price) ∷ [])
    ∷ (("order_id", text o)
        ∷ ("new_price", price j.target_price)
        ∷ ("original_price", price j.from_price)
        ∷ [])
    ∷ (("order_no", text o)
        ∷ ("new_price", price j.target_price)
        ∷ ("original_price", price j.from_price)
        ∷ [])
    ∷ []

abbrev pub product_variants : String → PriceJob → List Kwargs
product_variants p j =
    (("product_id", text p)
      ∷ ("price", cents j.target_price)
      ∷ ("original_price", cents j.from_price)
      ∷ [])
    ∷ (("pid", text p)
        ∷ ("new_price", price j.target_price)
        ∷ ("original_price", price j.from_price)
        ∷ [])
    ∷ (("pid", text p)
        ∷ ("price", price j.target_price)
        ∷ ("original_price", price j.from_price)
        ∷ [])
    ∷ []

-- the result of a call, normalised unless it raised
abbrev pub normalized : Texts → Scope → String → String → Invoked → Invoked
normalized t scope o p (k, returned out) = (k, returned (normalize_result t out scope o p))
normalized t scope o p (k, raised e) = (k, raised e)

unfoldable pub change_order_with : Texts → PriceJob → Option Method → Invoked
unfolding invoke_with_supported_kwargs normalize_result
change_order_with t j none = (
  none,
  returned (failure order (t.strip j.order_id) (t.strip j.product_id) "order_price_unsupported"),
)
change_order_with t j (some m) =
    let o = t.strip j.order_id in
    let p = t.strip j.product_id in
    if o == ""
    then (none, returned (failure order o p "order_price_unsupported"))
    else normalized t order o p (
        invoke_with_supported_kwargs m
          (("order_no", text o) ∷ ("order_price", cents j.target_price) ∷ []) (order_variants o j))

unfoldable pub change_order_price : Texts → OperationsService → PriceJob → Invoked
unfolding change_order_with
change_order_price t svc j =
    change_order_with t j (first_method svc.modify_order_price svc.update_order_price)

unfoldable pub change_product_with : Texts → PriceJob → Option Method → Invoked
unfolding invoke_with_supported_kwargs normalize_result
change_product_with t j none = (
  none,
  returned
      (failure product (t.strip j.order_id) (t.strip j.product_id) "product_price_unsupported"),
)
change_product_with t j (some m) =
    let o = t.strip j.order_id in
    let p = t.strip j.product_id in
    if p == ""
    then (none, returned (failure product o p "product_price_unsupported"))
    else normalized t product o p (
        invoke_with_supported_kwargs m
          (("product_id", text p)
            ∷ ("new_price", price j.target_price)
            ∷ ("original_price", price j.from_price)
            ∷ [])
          (product_variants p j))

unfoldable pub change_product_price : Texts → OperationsService → PriceJob → Invoked
unfolding change_product_with
change_product_price t svc j = change_product_with t j svc.update_price

unfoldable pub change_price_in : Texts → OperationsService → PriceJob → Scope → Invoked
unfolding change_order_price change_product_price
change_price_in t svc j order = change_order_price t svc j
change_price_in t svc j product = change_product_price t svc j

-- `_execute_price_change`
unfoldable pub execute_price_change : Texts → OperationsService → PriceJob → Invoked
unfolding price_scope_for change_price_in
execute_price_change t svc j = change_price_in t svc j (price_scope_for t j)

-- a notifier that is set, sends, and whose errors are ignored
unfoldable pub notify_failure : PriceStore → Bool → ℕ → PriceJob → String → PriceStore
notify_failure s has_notifier i j error =
    if has_notifier
    then record s {
      notices =
          s.notices
          ++ (record {
            job_id = i;
            session_id = j.session_id;
            product_id = j.product_id;
            target_price = j.target_price;
            error = error;
          })
            ∷ [];
    }
    else s

-- UPDATE … SET status='running' … WHERE id=? AND status='pending'
abbrev pub is_open : ℕ → PriceJob → Bool
is_open i j = j.id == i && is_pending j.status

abbrev pub run : ℕ → PriceJob → PriceJob
run now j = record j { status = running; attempts = suc j.attempts; updated_at = now }

abbrev pub succeeded : OpResult → Bool
succeeded r = elim r.success [ none ↦ false | some b ↦ b ]

abbrev pub final_status : OpResult → PriceJobStatus
final_status r = if succeeded r then success else failed

abbrev pub final_error : OpResult → String
final_error r = if succeeded r then "" else or_text r.error "update_price_failed"

abbrev pub nonempty : String → Option String
nonempty e = if e == "" then none else some e

abbrev pub finish : ℕ → OpResult → PriceJob → PriceJob
finish now r j = record j {
  status = final_status r;
  result = some r;
  last_error = nonempty (final_error r);
  updated_at = now;
}

abbrev pub fail : ℕ → String → PriceJob → PriceJob
fail now e j = record j { status = failed; last_error = some (text_take 500 e); updated_at = now }

-- after the call: the row, the event and the notice of a result or of an exception
unfoldable pub record_outcome : PriceStore → Bool → ℕ → ℕ → PriceJob → Outcome → PriceStore
unfolding update_where notify_failure
record_outcome s has_notifier now i j (returned r) =
    let s' =
      append_event (record s { jobs = update_where (has_id i) (finish now r) s.jobs }) i
        execution_finished (final_status r) (of_result r (final_error r)) now in
    if succeeded r then s' else notify_failure s' has_notifier i j (final_error r)
record_outcome s has_notifier now i j (raised e) =
    notify_failure
      (append_event (record s { jobs = update_where (has_id i) (fail now e) s.jobs }) i
        execution_exception failed (of_error e) now)
      has_notifier i j e

abbrev pub record_call : PriceStore → Option Kwargs → PriceStore
record_call s none = s
record_call s (some k) = record s { calls = s.calls ++ k ∷ [] }

-- the claimed job is executed: event, call, outcome
unfoldable pub after_call : PriceStore → Bool → ℕ → ℕ → PriceJob → Invoked → PriceStore
unfolding record_outcome
after_call s has_notifier now i j (k, o) =
    record_outcome (record_call (append_event s i execution_started running empty now) k)
      has_notifier now i j o

unfoldable pub execute_claimed :
    Texts → OperationsService → Bool → PriceStore → ℕ → ℕ → PriceJob → PriceStore
unfolding execute_price_change after_call
execute_claimed t svc has_notifier s now i j =
    after_call s has_notifier now i j (execute_price_change t svc j)

-- `execute_job`: the store after it; the source returns the replay of the job from it
unfoldable pub execute_job :
    Texts → OperationsService → Bool → PriceStore → ℕ → ℕ → PriceStore × PriceResult Replay
unfolding get_job replay_job execute_claimed count_where update_where
execute_job t svc has_notifier s now i = elim (get_job s i) [
  | none ↦ (s, job_not_found i)
  | some j ↦
      let claimed = record s { jobs = update_where (is_open i) (run now) s.jobs } in
      let s' =
        if ltb 0 (count_where (is_open i) s.jobs)
        then execute_claimed t svc has_notifier claimed now i j
        else claimed in
      (s', replay_job s' i)
]
