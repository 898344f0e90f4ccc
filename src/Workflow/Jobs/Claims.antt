-- ===== src/Workflow/Jobs/Claims.antt =====
-- What `claim_jobs` claims: the loop with its guarded UPDATEs hands out exactly the selected rows,
-- and a job that one worker has claimed is not due for any other.
use realxianyu.Base.{
  ℕ, ◌+◌, ◌≤◌, ◌<◌, ◌≡◌, refl, Bool, true, ◌&&◌, List, [], ◌∷◌, map, arith, ◌==◌, nat_eq,
  Bool-cases, inl, inr, max,
}
use realxianyu.Base.Lists.{
  length, length-map, map-take, take, length-take-le, All, All-mono, All-take, Pairs, Pairs-take,
}
use realxianyu.Base.Table.{update_where, count_where, select_where}
use realxianyu.Base.Table.Laws.{count_where-update_where}
use realxianyu.Base.Table.Columns.{Pairs-map-select_where}
use realxianyu.Workflow.Rows.{Job, WorkflowStore}
use realxianyu.Workflow.Jobs.{is_due, start, handed, claim_rows, claim_jobs}
use realxianyu.Workflow.Jobs.Invariant.{job_id, JobsValid}

-- the condition of the UPDATE for a selected row
abbrev pub mine : ℕ → Job → Job → Bool
mine now r j = j.id == r.id && is_due now j

module _ (now lease : ℕ) where
  pub still_due :
      (r : Job) (rows jobs : List Job)
      → All (λ i. r.id < i) (map job_id rows)
      → All (λ q. 0 < count_where (mine now q) jobs) rows
      → All
          (λ q. 0 < count_where (mine now q) (update_where (mine now r) (start now lease) jobs))
          rows
  still_due r [] jobs later h = tt
  still_due r (q ∷ rows) jobs later h = (
    rw
        (count_where-update_where (mine now r) (mine now q) (start now lease) jobs
          (λ x e. ground arith))
        h.0,
    still_due r rows jobs later.1 h.1,
  )

  -- Every UPDATE of the loop finds its row, so the rows are handed out as they were selected.
  pub claim_rows-handed :
      (rows jobs : List Job)
      → All (λ q. 0 < count_where (mine now q) jobs) rows
      → Pairs ◌<◌ (map job_id rows)
      → (claim_rows now lease rows jobs).1 ≡ map (handed lease) rows
  unfolding claim_rows
  claim_rows-handed [] jobs h d = refl
  claim_rows-handed (r ∷ rows) jobs h d = ground (
    arith,
    h.0,
    claim_rows-handed rows (update_where (mine now r) (start now lease) jobs)
        (still_due r rows jobs d.0 h.1) d.1,
  )

  due_counts :
      (x q : Job) (xs : List Job)
      → 0 < count_where (mine now q) xs
      → 0 < count_where (mine now q) (x ∷ xs)
  unfolding count_where
  due_counts x q xs h = ground arith

  due_counts_self :
      (x : Job) (xs : List Job) → is_due now x ≡ true → 0 < count_where (mine now x) (x ∷ xs)
  unfolding count_where
  due_counts_self x xs e = ground arith

  pub selected_due :
      (jobs : List Job)
      → All (λ q. 0 < count_where (mine now q) jobs) (select_where (is_due now) jobs)
  unfolding select_where
  selected_due [] = tt
  selected_due (x ∷ jobs) =
      let rest =
        All-mono (λ q. 0 < count_where (mine now q) jobs)
          (λ q. 0 < count_where (mine now q) (x ∷ jobs)) (select_where (is_due now) jobs)
          (λ q. due_counts x q jobs) (selected_due jobs) in
      elim (Bool-cases (is_due now x)) [
        | inl e ↦ rw e (due_counts_self x jobs e, rest)
        | inr e ↦ rw e rest
      ]

-- the rows that the SELECT of `claim_jobs` returns
abbrev pub selected : ℕ → ℕ → WorkflowStore → List Job
selected now limit s = take (max 1 limit) (select_where (is_due now) s.jobs)

-- `claim_jobs` hands out exactly the pending and due jobs, in the order of their ids, at most
-- max(1, limit) of them, each with the new lease: no guarded UPDATE of its loop ever misses.
pub claim_jobs-selected :
    (now later limit lease_seconds : ℕ) (s : WorkflowStore)
    → JobsValid s
    → ((claim_jobs now later limit lease_seconds s).1
        ≡ map (handed (later + lease_seconds)) (selected now limit s))
      × (length (claim_jobs now later limit lease_seconds s).1 ≤ max 1 limit)
unfolding claim_jobs
claim_jobs-selected now later limit lease_seconds s v =
    let due = select_where (is_due now) s.jobs in
    let ascend = Pairs-map-select_where (is_due now) job_id ◌<◌ s.jobs v.ids_ascend in
    let claimed =
      claim_rows-handed now (later + lease_seconds) (take (max 1 limit) due) s.jobs
        (All-take (λ q. 0 < count_where (mine now q) s.jobs) (max 1 limit) due
          (selected_due now (later + lease_seconds) s.jobs))
        (rw map-take (Pairs-take ◌<◌ (max 1 limit) (map job_id due) ascend)) in
    (claimed, rw (claimed, length-map) (length-take-le (max 1 limit) due))
