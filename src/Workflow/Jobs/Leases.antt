-- ===== src/Workflow/Jobs/Leases.antt =====
-- The lease as a fence: once a job's lease has run out and the job has been recovered, its old
-- holder can neither complete nor fail it, also after another worker has claimed it.
use realxianyu.Base.{
  ℕ, ◌+◌, ◌≤◌, ◌<◌, ◌≡◌, refl, false, ◌&&◌, none, some, List, [], ◌∷◌, String, arith, ◌==◌, nat_eq,
  max,
}
use realxianyu.Base.Lists.{take, All, All-mono}
use realxianyu.Base.Table.{update_where, select_where}
use realxianyu.Base.Table.Laws.{
  All-update_where, update_where_nothing, count_where_zero, find_where_zero,
}
use realxianyu.Workflow.Rows.{pending, Job, WorkflowStore}
use realxianyu.Workflow.Jobs.{
  lease_expired, is_expired, recover_expired_jobs, is_due, start, claim_rows, claim_jobs, is_held,
  complete_job, fail_row, fail_job,
}
use realxianyu.Workflow.Jobs.Invariant.{HasLease, JobsValid}

-- no lease that ended before `t` is held
abbrev pub LeaseFrom : ℕ → Job → Type 0
LeaseFrom t j = lease_expired t j.lease_until ≡ false

-- After a recovery at `now` every lease that is left reaches `now`.
pub recover_expired_jobs-LeaseFrom :
    (now : ℕ) (s : WorkflowStore)
    → JobsValid s
    → All (LeaseFrom now) (recover_expired_jobs now s).0.jobs
unfolding recover_expired_jobs
recover_expired_jobs-LeaseFrom now s v =
    All-update_where HasLease (LeaseFrom now) (is_expired now)
      (λ j. record j { status = pending; lease_until = none; updated_at = now }) s.jobs
      (λ j _ _. refl) (λ j h e. ground arith) v.leases

claim_rows-LeaseFrom :
    (t now lease : ℕ) (rows jobs : List Job)
    → t ≤ lease
    → All (LeaseFrom t) jobs
    → All (LeaseFrom t) (claim_rows now lease rows jobs).0
unfolding claim_rows
claim_rows-LeaseFrom t now lease [] jobs le h = h
claim_rows-LeaseFrom t now lease (r ∷ rows) jobs le h =
    let mine = λ (j : Job). j.id == r.id && is_due now j in
    claim_rows-LeaseFrom t now lease rows (update_where mine (start now lease) jobs) le (
      All-update_where (LeaseFrom t) (LeaseFrom t) mine (start now lease) jobs
        (λ j _ _. ground arith) (λ j k _. k) h)

-- A new claim at a time after `t` leaves no older lease behind.
pub claim_jobs-LeaseFrom :
    (t now later limit lease_seconds : ℕ) (s : WorkflowStore)
    → t ≤ later
    → All (LeaseFrom t) s.jobs
    → All (LeaseFrom t) (claim_jobs now later limit lease_seconds s).0.jobs
unfolding claim_jobs
claim_jobs-LeaseFrom t now later limit lease_seconds s le h =
    claim_rows-LeaseFrom t now (later + lease_seconds)
      (take (max 1 limit) (select_where (is_due now) s.jobs)) s.jobs (omega arith) h

module _ (t l id : ℕ) (s : WorkflowStore) (old : l < t) (fresh : All (LeaseFrom t) s.jobs) where
  not_held : All (λ j. is_held id (some l) j ≡ false) s.jobs
  not_held =
      All-mono (LeaseFrom t) (λ j. is_held id (some l) j ≡ false) s.jobs (λ j h. ground arith) fresh

  pub complete_job_stale : (now : ℕ) → complete_job now id (some l) s ≡ (s, false)
  unfolding complete_job
  complete_job_stale now = simp (
    update_where_nothing (is_held id (some l)) _ s.jobs not_held,
    count_where_zero (is_held id (some l)) s.jobs not_held,
  )

  pub fail_job_stale :
      (now later : ℕ) (error : String) (max_attempts base : ℕ)
      → fail_job now later id error max_attempts base (some l) s ≡ (s, false)
  unfolding fail_job fail_row
  fail_job_stale now later error max_attempts base =
      rw (find_where_zero (is_held id (some l)) s.jobs not_held)

-- After a recovery at `now` and a claim by another worker, a worker whose lease ended before `now`
-- is refused: neither `complete_job` nor `fail_job` under that lease changes the store.
pub stale_lease_refused :
    (now later limit lease_seconds l id t t' max_attempts base : ℕ) (error : String)
    (s : WorkflowStore)
    → l < now
    → now ≤ later
    → JobsValid s
    → let s' = (claim_jobs now later limit lease_seconds (recover_expired_jobs now s).0).0 in
      (complete_job t id (some l) s' ≡ (s', false))
      × (fail_job t t' id error max_attempts base (some l) s' ≡ (s', false))
stale_lease_refused now later limit lease_seconds l id t t' max_attempts base error s old le v =
    let recovered = (recover_expired_jobs now s).0 in
    let s' = (claim_jobs now later limit lease_seconds recovered).0 in
    let fresh =
      claim_jobs-LeaseFrom now now later limit lease_seconds recovered le
        (recover_expired_jobs-LeaseFrom now s v) in
    (
      complete_job_stale now l id s' old fresh t,
      fail_job_stale now l id s' old fresh t t' error max_attempts base,
    )
