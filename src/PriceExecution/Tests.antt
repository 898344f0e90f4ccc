-- ===== src/PriceExecution/Tests.antt =====
-- One pending price job, and the theorems of this folder at concrete inputs.
use realxianyu.Base.{
  ◌≤◌, ◌≡◌, refl, true, false, some, none, [], ◌∷◌, List, ◌&&◌, ◌==◌, nat_eq, arith, min, max,
}
use realxianyu.Base.Lists.{length}
use realxianyu.Base.Table.{find_where, count_where}
use realxianyu.PriceExecution.Decision.{decide_target_price, decide_target_price-clamp}
use realxianyu.PriceExecution.Service.{
  OpResult, returned, Method, OperationsService, Texts, Kwargs, text, cents,
}
use realxianyu.PriceExecution.Jobs.{
  is_pending, PriceJob, PriceStore, JobRequest, pending, get_job, create_job,
}
use realxianyu.PriceExecution.Execute.{execute_job, execute_price_change, price_scope_for}
use realxianyu.PriceExecution.Calls.{IsMethod, Confirmed, execute_price_change-Confirmed}
use realxianyu.PriceExecution.Flows.{Creates, create_job_lem}
use realxianyu.PriceExecution.Execute.Effects.{Ended}
use realxianyu.PriceExecution.Once.{
  Execution, calls_for, execute_job_again, execute_job-Ended, calls_for_once,
}

abbrev texts : Texts
texts = record { strip = λ t. t; lower = λ t. t }

abbrev answer : OpResult
answer = record {
  success = none;
  order_id = none;
  order_no = some "o7";
  product_id = none;
  channel = some "dom";
  action = none;
  error = none;
}

abbrev modify : Method
modify = record {
  signature =
      some (record { accepts_var_kwargs = false; parameters = "order_id" ∷ "order_price" ∷ [] });
  call = λ kws. returned answer;
}

abbrev service : OperationsService
service = record {
  modify_order_price = some modify;
  update_order_price = none;
  update_price = none;
}

abbrev job : PriceJob
job = record {
  id = 1;
  session_id = "s1";
  order_id = "o7";
  product_id = "p3";
  strategy = record { decision = decide_target_price 1000 900 800; price_scope = "order" };
  from_price = 1000;
  buyer_offer_price = 900;
  target_price = 900;
  status = pending;
  attempts = 0;
  result = none;
  last_error = none;
  created_at = 0;
  updated_at = 0;
}

abbrev store : PriceStore
store = record { jobs = job ∷ []; next_id = 2; events = []; calls = []; notices = [] }

abbrev request : JobRequest
request = record {
  session_id = "s1";
  product_id = "";
  order_id = "o8";
  from_price = 1000;
  buyer_offer_price = 900;
  min_price = 800;
  price_scope = none;
  meta_scope = none;
}

calls_once : length (execute_job texts service true store 5 1).0.calls ≡ 1
unfolding execute_job find_where
calls_once = refl

decide_target_price-clamp_example :
    let d = decide_target_price 1000 900 800 in
    (800 ≤ d.target_price) × (d.target_price ≤ 1000) × (d.target_price ≡ min 1000 (max 900 800))
decide_target_price-clamp_example = decide_target_price-clamp 1000 900 800 (omega arith)

abbrev sent_arguments : Kwargs
sent_arguments = ("order_id", text "o7") ∷ ("order_price", cents 900) ∷ []

abbrev normal_answer : OpResult
normal_answer = record answer {
  success = some true;
  order_id = some "o7";
  action = some "modify_order_price";
}

changed : execute_price_change texts service job ≡ (some sent_arguments, returned normal_answer)
unfolding execute_price_change
changed = refl

execute_price_change-Confirmed_example :
    Confirmed texts job
      (price_scope_for texts job)
      (IsMethod service (price_scope_for texts job))
      (some sent_arguments)
execute_price_change-Confirmed_example =
    execute_price_change-Confirmed texts service job (some sent_arguments) normal_answer changed
      refl

create_job_lem_example : Creates store request (create_job texts store 9 request)
create_job_lem_example = create_job_lem texts store 9 request (ground arith)

execute_job_again_example :
    let s' = (execute_job texts service true store 5 1).0 in
    (execute_job texts service false s' 6 1).0 ≡ s'
execute_job_again_example = execute_job_again texts texts service service true false store 5 6 1

found : get_job store 1 ≡ some job
unfolding get_job find_where
found = refl

execute_job-Ended_example :
    (j' : PriceJob) × (get_job (execute_job texts service true store 5 1).0 1 ≡ some j')
    × Ended job j'
execute_job-Ended_example = execute_job-Ended texts service true store 5 1 job found refl

abbrev executions : List Execution
executions = (service, true, 5, 1) ∷ (service, true, 6, 1) ∷ []

calls_for_once_example :
    calls_for texts 1 store executions
    ≤ min 1 (count_where (λ j. j.id == 1 && is_pending j.status) store.jobs)
calls_for_once_example = calls_for_once texts 1 executions store
