-- ===== src/PriceExecution/Execute/Effects.antt =====
-- What `execute_job` of src/modules/orders/price_execution.py does to the rows of the jobs and to the
-- calls of the operations service.
use realxianyu.Base.{
  ℕ, suc, ◌≤◌, ◌≡◌, refl, ◌⊎◌, inl, inr, Bool, true, false, none, some, List, [], ◌∷◌, ◌++◌, arith,
  ◌==◌, nat_eq, string_eq, if◌then◌else◌, Bool-cases, Option-cases, ltb,
}
use realxianyu.Base.Table.{update_where, count_where, find_where}
use realxianyu.Base.Lists.{length, length-append}
use realxianyu.PriceExecution.Service.{Outcome, returned, raised, OperationsService, Texts, Invoked}
use realxianyu.PriceExecution.Jobs.{
  running, success, failed, PriceJob, PriceStore, get_job, append_event, execution_started, empty,
  has_id, is_pending,
}
use realxianyu.PriceExecution.Execute.{
  execute_job, execute_claimed, execute_price_change, record_outcome, after_call, notify_failure,
  is_open, run, finish, fail,
}

-- an UPDATE of no row changes nothing
pub update_where_nothing :
    {A : Type 0} (p : A → Bool) (f : A → A) (xs : List A)
    → count_where p xs ≡ 0
    → update_where p f xs ≡ xs
unfolding update_where count_where
update_where_nothing p f [] h = refl
update_where_nothing p f (x ∷ xs) h = ground (arith, update_where_nothing p f xs)

-- once every row of the id has left `pending`, none of them is open
pub count_where-closed :
    (i : ℕ) (f : PriceJob → PriceJob) (js : List PriceJob)
    → ((j : PriceJob) → is_pending (f j).status ≡ false)
    → count_where (is_open i) (update_where (has_id i) f js) ≡ 0
unfolding update_where count_where
count_where-closed i f [] h = refl
count_where-closed i f (j ∷ js) h = ground (arith, h j, count_where-closed i f js h)

-- and no row of another id is opened
pub count_where-opened :
    (i k now : ℕ) (f : PriceJob → PriceJob) (js : List PriceJob)
    → ((j : PriceJob) → is_pending (f j).status ≡ false)
    → count_where (is_open i) (update_where (has_id k) f (update_where (is_open k) (run now) js))
      ≤ count_where (is_open i) js
unfolding update_where count_where
count_where-opened i k now f [] h = omega arith
count_where-opened i k now f (j ∷ js) h =
    ground (arith, h j, h (run now j), count_where-opened i k now f js h)

-- the row that an outcome leaves
unfoldable pub settled : ℕ → Outcome → PriceJob → PriceJob
settled now (returned r) = finish now r
settled now (raised e) = fail now e

pub settled-closed :
    (now : ℕ) (o : Outcome) (j : PriceJob) → is_pending (settled now o j).status ≡ false
unfolding settled
settled-closed now (returned r) j = ground arith
settled-closed now (raised e) j = refl

pub record_outcome-jobs :
    (s : PriceStore) (n : Bool) (now i : ℕ) (j : PriceJob) (o : Outcome)
    → ((record_outcome s n now i j o).jobs ≡ update_where (has_id i) (settled now o) s.jobs)
      × ((record_outcome s n now i j o).calls ≡ s.calls)
unfolding record_outcome notify_failure settled
record_outcome-jobs s n now i j (returned r) = ground arith
record_outcome-jobs s n now i j (raised e) = ground arith

-- the rows and the calls that an execution of a claimed job leaves
pub after_call-jobs :
    (s : PriceStore) (n : Bool) (now i : ℕ) (j : PriceJob) (v : Invoked)
    → ((after_call s n now i j v).jobs ≡ update_where (has_id i) (settled now v.1) s.jobs)
      × (length (after_call s n now i j v).calls ≤ suc (length s.calls))
unfolding after_call
after_call-jobs s n now i j (none, o) =
    ground (
      arith,
      record_outcome-jobs (append_event s i execution_started running empty now) n now i j o,
    )
after_call-jobs s n now i j (some k, o) = ground (
  arith,
  length-append s.calls (k ∷ []),
  record_outcome-jobs
      (record (append_event s i execution_started running empty now) { calls = s.calls ++ k ∷ [] })
      n now i j o,
)

pub execute_claimed-jobs :
    (t : Texts) (svc : OperationsService) (n : Bool) (s : PriceStore) (now i : ℕ) (j : PriceJob)
    → (o : Outcome) × ((execute_claimed t svc n s now i j).jobs
        ≡ update_where (has_id i) (settled now o) s.jobs)
      × (length (execute_claimed t svc n s now i j).calls ≤ suc (length s.calls))
unfolding execute_claimed
execute_claimed-jobs t svc n s now i j =
    let h = after_call-jobs s n now i j (execute_price_change t svc j) in (_, h.0, h.1)

pub no_row_is_open :
    (i : ℕ) (js : List PriceJob) → find_where (has_id i) js ≡ none → count_where (is_open i) js ≡ 0
unfolding find_where count_where
no_row_is_open i [] h = refl
no_row_is_open i (j ∷ js) h = ground (arith, no_row_is_open i js)

-- An execution where no row is open changes nothing.
pub execute_job-closed :
    (t : Texts) (svc : OperationsService) (n : Bool) (s : PriceStore) (now i : ℕ)
    → count_where (is_open i) s.jobs ≡ 0
    → (execute_job t svc n s now i).0 ≡ s
unfolding execute_job get_job
execute_job-closed t svc n s now i h =
    ground (arith, update_where_nothing (is_open i) (run now) s.jobs h)

pub claimed-closes :
    (t : Texts) (svc : OperationsService) (n : Bool) (s : PriceStore) (now i : ℕ) (j : PriceJob)
    → let claimed = record s { jobs = update_where (is_open i) (run now) s.jobs } in
      count_where
        (is_open i)
        (if ltb 0 (count_where (is_open i) s.jobs)
          then execute_claimed t svc n claimed now i j
          else claimed).jobs
      ≡ 0
claimed-closes t svc n s now i j =
    let claimed : PriceStore = record s { jobs = update_where (is_open i) (run now) s.jobs } in
    let h = execute_claimed-jobs t svc n claimed now i j in
    ground (
      arith,
      h.1,
      count_where-closed i (settled now h.0) claimed.jobs (settled-closed now h.0),
      update_where_nothing (is_open i) (run now) s.jobs,
    )

-- No row of the job is open after an execution.
pub execute_job-closes :
    (t : Texts) (svc : OperationsService) (n : Bool) (s : PriceStore) (now i : ℕ)
    → count_where (is_open i) (execute_job t svc n s now i).0.jobs ≡ 0
unfolding execute_job get_job
execute_job-closes t svc n s now i = elim (Option-cases (find_where (has_id i) s.jobs)) [
  | inl e ↦ rw (execute_job, e) (no_row_is_open i s.jobs e)
  | inr (j, e) ↦ rw (execute_job, e) (claimed-closes t svc n s now i j)
]

-- an ended job: in success or failure, with one more attempt
abbrev pub Ended : PriceJob → PriceJob → Type 0
Ended j j' = ((j'.status ≡ success) ⊎ (j'.status ≡ failed)) × (j'.attempts ≡ suc j.attempts)

pub settled-Ended : (now : ℕ) (o : Outcome) (j : PriceJob) → Ended j (settled now o (run now j))
unfolding settled
settled-Ended now (returned r) j = ground arith
settled-Ended now (raised e) j = (inr refl, refl)

pub settled-id : (now : ℕ) (o : Outcome) (j : PriceJob) → (settled now o j).id ≡ j.id
unfolding settled
settled-id now (returned r) j = refl
settled-id now (raised e) j = refl

pub find_where-settled :
    (i now : ℕ) (o : Outcome) (js : List PriceJob) (j : PriceJob)
    → find_where (has_id i) js ≡ some j
    → is_pending j.status ≡ true
    → find_where
        (has_id i)
        (update_where (has_id i) (settled now o) (update_where (is_open i) (run now) js))
      ≡ some (settled now o (run now j))
unfolding find_where update_where
find_where-settled i now o [] j h p = ground arith
find_where-settled i now o (x ∷ js) j h p = elim (Bool-cases (x.id == i)) [
  | inl e ↦
      ground (arith, settled-id now o (run now x), settled-id now o (run now j), settled-id now o x)
  | inr e ↦ ground (arith, find_where-settled i now o js j)
]

pub pending_row_is_open :
    (i : ℕ) (js : List PriceJob) (j : PriceJob)
    → find_where (has_id i) js ≡ some j
    → is_pending j.status ≡ true
    → 1 ≤ count_where (is_open i) js
unfolding find_where count_where
pending_row_is_open i [] j h p = ground arith
pending_row_is_open i (x ∷ js) j h p = ground (arith, pending_row_is_open i js j)

-- what an execution does to the store: nothing, or what an outcome leaves
unfoldable pub Effect : PriceStore → ℕ → ℕ → PriceStore → Type 0
Effect s now i s' =
    ((count_where (is_open i) s.jobs ≡ 0) × (s' ≡ s))
    ⊎ ((o : Outcome) × (1 ≤ count_where (is_open i) s.jobs)
        × (s'.jobs
            ≡ update_where (has_id i) (settled now o) (update_where (is_open i) (run now) s.jobs))
        × (length s'.calls ≤ suc (length s.calls)))

pub execute_claimed-Effect :
    (t : Texts) (svc : OperationsService) (n : Bool) (s : PriceStore) (now i : ℕ) (j : PriceJob)
    → 1 ≤ count_where (is_open i) s.jobs
    → Effect s now i (
        execute_claimed t svc n
          (record s { jobs = update_where (is_open i) (run now) s.jobs })
          now
          i
          j)
unfolding Effect
execute_claimed-Effect t svc n s now i j some_open =
    let x =
      execute_claimed-jobs t svc n (record s { jobs = update_where (is_open i) (run now) s.jobs })
        now i j in
    inr (x.0, some_open, x.1, x.2)

pub execute_job-Effect :
    (t : Texts) (svc : OperationsService) (n : Bool) (s : PriceStore) (now i : ℕ)
    → Effect s now i (execute_job t svc n s now i).0
unfolding Effect execute_job
execute_job-Effect t svc n s now i = elim (Bool-cases (ltb 0 (count_where (is_open i) s.jobs))) [
  | inl e ↦ elim (Option-cases (find_where (has_id i) s.jobs)) [
    | inl o ↦
        inl (
          no_row_is_open i s.jobs o,
          execute_job-closed t svc n s now i (no_row_is_open i s.jobs o),
        )
    | inr (j, o) ↦ rw (execute_job, o, e) (execute_claimed-Effect t svc n s now i j (ground arith))
  ]
  | inr e ↦ inl (ground arith, execute_job-closed t svc n s now i (ground arith))
]
