-- ===== src/Workflow/Jobs/Exclusion.antt =====
-- A job that one call of `claim_jobs` handed out is not handed out by the next call, whatever the
-- clock says: it is no longer pending.
use realxianyu.Base.{
  ℕ, ◌+◌, ◌≤◌, ◌<◌, ◌≡◌, ◌≢◌, Bool, true, false, ◌&&◌, List, [], ◌∷◌, map, arith, ◌==◌, nat_eq,
  if◌then◌else◌, Bool-cases, inl, inr, max,
}
use realxianyu.Base.Lists.{map-take, All-map, All, All-mono, All-take, Pairs, Pairs-take}
use realxianyu.Base.Table.{update_where, count_where, select_where}
use realxianyu.Base.Table.Laws.{
  All-update_where, count_where-update_where-le, count_where-update_where_zero,
}
use realxianyu.Base.Table.Columns.{All-map-select_where, Pairs-map-select_where}
use realxianyu.Workflow.Rows.{Job, WorkflowStore}
use realxianyu.Workflow.Jobs.{
  WorkflowJob, is_pending, is_due, start, handed, claim_rows, claim_jobs,
}
use realxianyu.Workflow.Jobs.Invariant.{job_id, JobsValid, claim_jobs-JobsValid}
use realxianyu.Workflow.Jobs.Claims.{mine, selected, claim_jobs-selected}

abbrev waits : Job → Job → Bool
waits r j = j.id == r.id && is_pending j.status

module _ (now : ℕ) where
  -- whatever job has the id of `q` is due
  abbrev Due : List Job → Job → Type 0
  Due jobs q = All (λ j. j.id ≡ q.id → is_due now j ≡ true) jobs

  Due-above :
      (x : Job) (jobs rows : List Job)
      → All (λ i. x.id < i) (map job_id rows)
      → All (Due jobs) rows
      → All (Due (x ∷ jobs)) rows
  Due-above x jobs [] above h = tt
  Due-above x jobs (q ∷ rows) above h =
      ((λ e. absurd (omega arith), h.0), Due-above x jobs rows above.1 h.1)

  Due-self : (x : Job) (jobs : List Job) → All (λ i. x.id < i) (map job_id jobs) → Due jobs x
  Due-self x [] above = tt
  Due-self x (j ∷ jobs) above = (λ e. absurd (omega arith), Due-self x jobs above.1)

  -- ids are unique, so a selected row is the only job with its id
  Due-selected :
      (jobs : List Job)
      → Pairs ◌<◌ (map job_id jobs)
      → All (Due jobs) (select_where (is_due now) jobs)
  unfolding select_where
  Due-selected [] d = tt
  Due-selected (x ∷ jobs) d =
      let rest =
        Due-above x jobs (select_where (is_due now) jobs)
          (All-map-select_where (is_due now) job_id (λ i. x.id < i) jobs d.0)
          (Due-selected jobs d.1) in
      elim (Bool-cases (is_due now x)) [
        | inl e ↦ rw e ((λ _. e, Due-self x jobs d.0), rest)
        | inr e ↦ rw e rest
      ]

module _ (now lease : ℕ) where
  waits-claim_rows-le :
      (r : Job) (rows jobs : List Job)
      → count_where (waits r) (claim_rows now lease rows jobs).0 ≤ count_where (waits r) jobs
  unfolding claim_rows
  waits-claim_rows-le r [] jobs = omega arith
  waits-claim_rows-le r (q ∷ rows) jobs = omega (
    arith,
    waits-claim_rows-le r rows (update_where (mine now q) (start now lease) jobs),
    count_where-update_where-le (mine now q) (waits r) (start now lease) jobs (λ x e. ground arith),
  )

  Due-start :
      (r : Job) (rows jobs : List Job)
      → All (λ i. r.id < i) (map job_id rows)
      → All (Due now jobs) rows
      → All (Due now (update_where (mine now r) (start now lease) jobs)) rows
  Due-start r [] jobs above h = tt
  Due-start r (q ∷ rows) jobs above h = (
    All-update_where (λ j. j.id ≡ q.id → is_due now j ≡ true)
        (λ j. j.id ≡ q.id → is_due now j ≡ true) (mine now r) (start now lease) jobs
        (λ x _ e same. absurd (ground arith)) (λ x k _. k) h.0,
    Due-start r rows jobs above.1 h.1,
  )

  -- after the loop no job with the id of a row waits
  waits-claim_rows :
      (rows jobs : List Job)
      → Pairs ◌<◌ (map job_id rows)
      → All (Due now jobs) rows
      → All (λ r. count_where (waits r) (claim_rows now lease rows jobs).0 ≡ 0) rows
  unfolding claim_rows
  waits-claim_rows [] jobs d h = tt
  waits-claim_rows (r ∷ rows) jobs d h =
      let jobs' = update_where (mine now r) (start now lease) jobs in
      (
        omega (
          arith,
          waits-claim_rows-le r rows jobs',
          count_where-update_where_zero (mine now r) (waits r) (start now lease) jobs (
              All-mono (λ j. j.id ≡ r.id → is_due now j ≡ true)
                (λ j. waits r (if mine now r j then start now lease j else j) ≡ false) jobs
                (λ j k. ground (arith, k)) h.0),
        ),
        waits-claim_rows rows jobs' d.1 (Due-start r rows jobs d.0 h.1),
      )

not_selected :
    (now : ℕ) (r : Job) (jobs : List Job)
    → count_where (waits r) jobs ≡ 0
    → All (λ q. r.id ≢ q.id) (select_where (is_due now) jobs)
unfolding count_where select_where
not_selected now r [] h = tt
not_selected now r (x ∷ jobs) h = elim (Bool-cases (is_due now x)) [
  | inl e ↦ rw e ((λ same. ground arith), not_selected now r jobs (ground arith))
  | inr e ↦ rw e (not_selected now r jobs (ground arith))
]

-- The jobs that a call of `claim_jobs` hands out do not wait in the table that it leaves.
waits-claim_jobs :
    (now later limit lease_seconds : ℕ) (s : WorkflowStore)
    → JobsValid s
    → All
        (λ r. count_where (waits r) (claim_jobs now later limit lease_seconds s).0.jobs ≡ 0)
        (selected now limit s)
unfolding claim_jobs
waits-claim_jobs now later limit lease_seconds s v =
    let due = select_where (is_due now) s.jobs in
    let ascend = Pairs-map-select_where (is_due now) job_id ◌<◌ s.jobs v.ids_ascend in
    waits-claim_rows now (later + lease_seconds) (selected now limit s) s.jobs
      (rw map-take (Pairs-take ◌<◌ (max 1 limit) (map job_id due) ascend))
      (All-take (Due now s.jobs) (max 1 limit) due (Due-selected now s.jobs v.ids_ascend))

-- Two calls of `claim_jobs` with nothing between them hand out no job twice.
pub claim_jobs-exclusive :
    (now later limit lease_seconds now' later' limit' lease_seconds' : ℕ) (s : WorkflowStore)
    → JobsValid s
    → let (s', first) = claim_jobs now later limit lease_seconds s in
      All
        (λ w.
          All (λ w'. WorkflowJob.id w ≢ w'.id) (claim_jobs now' later' limit' lease_seconds' s').1)
        first
claim_jobs-exclusive now later limit lease_seconds now' later' limit' lease_seconds' s v =
    let s' = (claim_jobs now later limit lease_seconds s).0 in
    let v' = claim_jobs-JobsValid now later limit lease_seconds s v in
    let due = select_where (is_due now') s'.jobs in
    rw
      (
        (claim_jobs-selected now later limit lease_seconds s v).0,
        (claim_jobs-selected now' later' limit' lease_seconds' s' v').0,
      )
      (All-map (handed (later + lease_seconds))
        (λ w.
          All (λ w'. WorkflowJob.id w ≢ w'.id)
            (map (handed (later' + lease_seconds')) (selected now' limit' s')))
        (selected now limit s)
        (All-mono (λ r. count_where (waits r) s'.jobs ≡ 0)
          (λ r.
            All (λ w'. r.id ≢ WorkflowJob.id w')
              (map (handed (later' + lease_seconds')) (selected now' limit' s')))
          (selected now limit s)
          (λ r gone.
            All-map (handed (later' + lease_seconds')) (λ w'. r.id ≢ WorkflowJob.id w')
              (selected now' limit' s')
              (All-take (λ q. r.id ≢ q.id) (max 1 limit') due (not_selected now' r s'.jobs gone)))
          (waits-claim_jobs now later limit lease_seconds s v)))
