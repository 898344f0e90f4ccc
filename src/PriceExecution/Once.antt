-- ===== src/PriceExecution/Once.antt =====
-- A price job of src/modules/orders/price_execution.py is executed once, and ends.
use realxianyu.Base.{
  ℕ, ◌+◌, ◌-◌, ◌≤◌, ◌≡◌, min, inl, inr, Bool, true, ◌&&◌, some, List, [], ◌∷◌, arith, ◌==◌, nat_eq,
  string_eq, nat_beq_iff, subst, sym, if◌then◌else◌, Bool-cases,
}
use realxianyu.Base.Table.{count_where}
use realxianyu.Base.Lists.{length}
use realxianyu.PriceExecution.Service.{OperationsService, Texts}
use realxianyu.PriceExecution.Jobs.{PriceJob, PriceStore, get_job, is_pending}
use realxianyu.PriceExecution.Execute.{execute_job, run, is_open}
use realxianyu.PriceExecution.Execute.Effects.{
  count_where-opened, settled, settled-closed, execute_job-closed, execute_job-closes, Ended,
  settled-Ended, find_where-settled, pending_row_is_open, Effect, execute_job-Effect,
}

-- After an execution of a job, whatever it ended in, executing it again calls no service and changes
-- nothing in the store.
pub execute_job_again :
    (t t' : Texts) (svc svc' : OperationsService) (n n' : Bool) (s : PriceStore) (now now' i : ℕ)
    → let s' = (execute_job t svc n s now i).0 in (execute_job t' svc' n' s' now' i).0 ≡ s'
execute_job_again t t' svc svc' n n' s now now' i =
    execute_job-closed t' svc' n' _ now' i (execute_job-closes t svc n s now i)

-- A job that is pending ends in success or in failure with one more attempt, whatever the operations
-- service returns or raises.
pub execute_job-Ended :
    (t : Texts) (svc : OperationsService) (n : Bool) (s : PriceStore) (now i : ℕ) (j : PriceJob)
    → get_job s i ≡ some j
    → is_pending j.status ≡ true
    → (j' : PriceJob) × (get_job (execute_job t svc n s now i).0 i ≡ some j') × Ended j j'
unfolding Effect get_job
execute_job-Ended t svc n s now i j h p = elim (execute_job-Effect t svc n s now i) [
  | inl (closed, same) ↦ absurd (omega (arith, closed, pending_row_is_open i s.jobs j h p))
  | inr (o, some_open, rows, calls) ↦ (
    settled now o (run now j),
    rw (get_job, rows) (find_where-settled i now o s.jobs j h p),
    settled-Ended now o j,
  )
]

-- one execution of a job: the operations service, whether there is a notifier, the time and the id
abbrev pub Execution : Type 0
Execution = OperationsService × Bool × ℕ × ℕ

-- how many calls of the operations service the executions of the job `i` add, in a sequence of
-- executions of any jobs
unfoldable pub calls_for : Texts → ℕ → PriceStore → List Execution → ℕ
unfolding execute_job
calls_for t i s [] = 0
calls_for t i s ((svc, n, now, k) ∷ es) =
    let s' = (execute_job t svc n s now k).0 in
    let rest = calls_for t i s' es in
    if k == i then (length s'.calls - length s.calls) + rest else rest

-- an execution opens no row, and calls the service at most once
execute_job-opened :
    (t : Texts) (svc : OperationsService) (n : Bool) (s : PriceStore) (now k i : ℕ)
    → let s' = (execute_job t svc n s now k).0 in
      (count_where (is_open i) s'.jobs ≤ count_where (is_open i) s.jobs)
      × (length s'.calls - length s.calls ≤ min 1 (count_where (is_open k) s.jobs))
unfolding Effect
execute_job-opened t svc n s now k i = elim (execute_job-Effect t svc n s now k) [
  | inl (closed, same) ↦ rw same (omega arith, omega arith)
  | inr (o, some_open, rows, calls) ↦ (
    rw rows (count_where-opened i k now (settled now o) s.jobs (settled-closed now o)),
    omega (arith, some_open, calls),
  )
]

calls_for-open :
    (t : Texts) (i : ℕ) (es : List Execution) (s : PriceStore)
    → calls_for t i s es ≤ min 1 (count_where (is_open i) s.jobs)
unfolding calls_for
calls_for-open t i [] s = omega arith
calls_for-open t i ((svc, n, now, k) ∷ es) s =
    let step = execute_job-opened t svc n s now k i in
    let rest = calls_for-open t i es (execute_job t svc n s now k).0 in
    elim (Bool-cases (k == i)) [
      | inl e ↦
          let one = (execute_job-opened t svc n s now i i).1 in
          let closed = execute_job-closes t svc n s now i in
          let none_left = calls_for-open t i es (execute_job t svc n s now i).0 in
          rw e (
            subst
              (λ k'.
                let s' = (execute_job t svc n s now k').0 in
                (length s'.calls - length s.calls) + calls_for t i s' es
                ≤ min 1 (count_where (is_open i) s.jobs))
              (sym ((nat_beq_iff k i).0 e)) (omega (arith, one, closed, none_left)))
      | inr e ↦ rw e (omega (arith, step.0, rest))
    ]

-- However often and in whatever order jobs are executed, with whatever services, the executions of a
-- job call the operations service at most once, and not at all where no pending row has its id at the
-- start.
pub calls_for_once :
    (t : Texts) (i : ℕ) (es : List Execution) (s : PriceStore)
    → calls_for t i s es ≤ min 1 (count_where (λ j. j.id == i && is_pending j.status) s.jobs)
calls_for_once t i es s = calls_for-open t i es s
