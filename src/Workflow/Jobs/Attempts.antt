-- ===== src/Workflow/Jobs/Attempts.antt =====
-- The bound on the attempts of a job, for each method that changes the job table.
use realxianyu.Base.{
  ℕ, ◌+◌, ◌≤◌, ◌<◌, ◌≡◌, refl, ◌&&◌, ◌||◌, Option, none, some, List, [], ◌∷◌, String, arith, ◌==◌,
  string_eq, nat_eq, Bool-cases, Option-cases, inl, inr, leb, max, if◌then◌else◌,
}
use realxianyu.Base.Lists.{take, All, All-append}
use realxianyu.Base.Table.{update_where, delete_where, select_where, find_where, exists_where}
use realxianyu.Base.Table.Laws.{
  All-update_where, All-delete_where, All-find_where, find_where_holds,
}
use realxianyu.Workflow.Rows.{Session, pending, done, Job, WorkflowStore}
use realxianyu.Workflow.Jobs.{
  is_settled, is_pending, has_dedupe_key, new_job, insert_or_ignore, reply_key, delayed_key,
  payload_or, enqueue_job, enqueue_delayed_job, is_expired, recover_expired_jobs, is_due, start,
  claim_rows, claim_jobs, is_held, complete_job, bury, retry, backoff, fail_row, fail_job,
}

-- At most `m` attempts have failed, and fewer if the job is neither done nor dead.
abbrev pub IsBounded : ℕ → Job → Type 0
IsBounded m j = j.attempts + (if is_settled j.status then 0 else 1) ≤ m

module _ (m : ℕ) (pos : 0 < m) where
  insert_or_ignore-IsBounded :
      (job : Job) (s : WorkflowStore)
      → job.attempts ≡ 0
      → All (IsBounded m) s.jobs
      → All (IsBounded m) (insert_or_ignore job s).0.jobs
  unfolding insert_or_ignore
  insert_or_ignore-IsBounded job s e h =
      elim (Bool-cases (exists_where (has_dedupe_key job.dedupe_key) s.jobs)) [
        | inl old ↦ rw old h
        | inr new ↦ rw new (All-append (IsBounded m) s.jobs (job ∷ []) h (ground arith, tt))
      ]

  pub enqueue_job-IsBounded :
      (sha1 : String → String) (now : ℕ) (session : Session) (stage : String) (s : WorkflowStore)
      → All (IsBounded m) s.jobs
      → All (IsBounded m) (enqueue_job sha1 now session stage s).0.jobs
  unfolding enqueue_job
  enqueue_job-IsBounded sha1 now session stage s h =
      let key = reply_key sha1 session stage in
      let gone = λ (j : Job). has_dedupe_key key j && is_settled j.status in
      ground (
        arith,
        insert_or_ignore-IsBounded
            (new_job s.next_job_id key session.session_id stage session now now)
            (record s { jobs = delete_where gone s.jobs }) refl
            (All-delete_where (IsBounded m) gone s.jobs h),
      )

  pub enqueue_delayed_job-IsBounded :
      (now later : ℕ) (sid stage : String) (delay : ℕ) (payload : Option Session)
      (s : WorkflowStore)
      → All (IsBounded m) s.jobs
      → All (IsBounded m) (enqueue_delayed_job now later sid stage delay payload s).0.jobs
  unfolding enqueue_delayed_job
  enqueue_delayed_job-IsBounded now later sid stage delay payload s h =
      let key = delayed_key sid stage in
      let gone =
        λ (j : Job). has_dedupe_key key j && (is_settled j.status || is_pending j.status) in
      ground (
        arith,
        insert_or_ignore-IsBounded
            (new_job s.next_job_id key sid stage (payload_or sid payload) (later + delay) now)
            (record s { jobs = delete_where gone s.jobs }) refl
            (All-delete_where (IsBounded m) gone s.jobs h),
      )

  pub recover_expired_jobs-IsBounded :
      (now : ℕ) (s : WorkflowStore)
      → All (IsBounded m) s.jobs
      → All (IsBounded m) (recover_expired_jobs now s).0.jobs
  unfolding recover_expired_jobs
  recover_expired_jobs-IsBounded now s h =
      All-update_where (IsBounded m) (IsBounded m) (is_expired now)
        (λ j. record j { status = pending; lease_until = none; updated_at = now }) s.jobs
        (λ j k e. ground arith) (λ j k _. k) h

  claim_rows-IsBounded :
      (now lease : ℕ) (rows jobs : List Job)
      → All (IsBounded m) jobs
      → All (IsBounded m) (claim_rows now lease rows jobs).0
  unfolding claim_rows
  claim_rows-IsBounded now lease [] jobs h = h
  claim_rows-IsBounded now lease (r ∷ rows) jobs h =
      let mine = λ (j : Job). j.id == r.id && is_due now j in
      claim_rows-IsBounded now lease rows (update_where mine (start now lease) jobs) (
        All-update_where (IsBounded m) (IsBounded m) mine (start now lease) jobs
          (λ j k e. ground arith) (λ j k _. k) h)

  pub claim_jobs-IsBounded :
      (now later limit lease_seconds : ℕ) (s : WorkflowStore)
      → All (IsBounded m) s.jobs
      → All (IsBounded m) (claim_jobs now later limit lease_seconds s).0.jobs
  unfolding claim_jobs
  claim_jobs-IsBounded now later limit lease_seconds s h =
      claim_rows-IsBounded now (later + lease_seconds)
        (take (max 1 limit) (select_where (is_due now) s.jobs)) s.jobs h

  pub complete_job-IsBounded :
      (now id : ℕ) (expected : Option ℕ) (s : WorkflowStore)
      → All (IsBounded m) s.jobs
      → All (IsBounded m) (complete_job now id expected s).0.jobs
  unfolding complete_job
  complete_job-IsBounded now id expected s h =
      All-update_where (IsBounded m) (IsBounded m) (is_held id expected)
        (λ j. record j { status = done; lease_until = none; updated_at = now }) s.jobs
        (λ j k e. ground arith) (λ j k _. k) h

  fail_row-IsBounded :
      (now later id : ℕ) (error : String) (base : ℕ) (expected : Option ℕ) (s : WorkflowStore)
      (row : Job)
      → row.attempts < m
      → All (IsBounded m) s.jobs
      → All (IsBounded m) (fail_row now later id error m base expected s (some row)).0.jobs
  unfolding fail_row
  fail_row-IsBounded now later id error base expected s row left h =
      elim (Bool-cases (leb m (row.attempts + 1))) [
        | inl e ↦ rw e (
            All-update_where (IsBounded m) (IsBounded m) (is_held id expected)
              (bury now (row.attempts + 1) error) s.jobs (λ j k _. ground arith) (λ j k _. k) h)
        | inr e ↦ rw e (
            All-update_where (IsBounded m) (IsBounded m) (is_held id expected)
              (retry now (row.attempts + 1) (later + backoff base (row.attempts + 1)) error) s.jobs
              (λ j k _. ground arith) (λ j k _. k) h)
      ]

  pub fail_job-IsBounded :
      (now later id : ℕ) (error : String) (base : ℕ) (expected : Option ℕ) (s : WorkflowStore)
      → All (IsBounded m) s.jobs
      → All (IsBounded m) (fail_job now later id error m base expected s).0.jobs
  unfolding fail_job
  fail_job-IsBounded now later id error base expected s h =
      elim (Option-cases (find_where (is_held id expected) s.jobs)) [
        | inl e ↦ rw e (unfold fail_row in h)
        | inr (row, e) ↦
            let bounded = All-find_where (IsBounded m) (is_held id expected) s.jobs h e in
            let held = find_where_holds (is_held id expected) s.jobs e in
            rw e (
              fail_row-IsBounded now later id error base expected s row (ground (arith, bounded)) h)
      ]
