-- ===== src/Workflow/Jobs/Dedupe.antt =====
-- When `enqueue_job` accepts a session: the dedupe key admits one unfinished job at a time.
use realxianyu.Base.{
  suc, ℕ, ◌≡◌, refl, Bool, true, false, not, ◌&&◌, List, [], ◌∷◌, ◌++◌, String, arith, ◌==◌, nat_eq,
  string_eq, eq_iff, if◌then◌else◌, Bool-cases, inl, inr,
}
use realxianyu.Base.Lists.{All, All-append}
use realxianyu.Base.Table.{delete_where, find_where, exists_where}
use realxianyu.Base.Table.Laws.{delete_where_holds, delete_where_none, find_where-append}
use realxianyu.Workflow.Rows.{Session, Job, WorkflowStore}
use realxianyu.Workflow.Jobs.{
  is_settled, has_dedupe_key, new_job, reply_key, insert_or_ignore, enqueue_job,
}

-- a job with the key that is neither done nor dead
abbrev pub is_open : String → Job → Bool
is_open key j = has_dedupe_key key j && not (is_settled j.status)

abbrev finished : String → Job → Bool
finished key j = has_dedupe_key key j && is_settled j.status

exists-delete_where :
    (key : String) (jobs : List Job)
    → exists_where (has_dedupe_key key) (delete_where (finished key) jobs)
      ≡ exists_where (is_open key) jobs
unfolding exists_where find_where delete_where
exists-delete_where key [] = refl
exists-delete_where key (j ∷ jobs) = ground (arith, exists-delete_where key jobs)

-- A session is enqueued exactly when it has an id and no unfinished job has its key.
pub enqueue_job-accepts :
    (sha1 : String → String) (now : ℕ) (session : Session) (stage : String) (s : WorkflowStore)
    → (enqueue_job sha1 now session stage s).1 ≡ (
        not (session.session_id == "")
        && not (exists_where (is_open (reply_key sha1 session stage)) s.jobs))
unfolding enqueue_job insert_or_ignore
enqueue_job-accepts sha1 now session stage s =
    ground (arith, exists-delete_where (reply_key sha1 session stage) s.jobs)

module _ (sha1 : String → String) (now : ℕ) (session : Session) (stage : String)
    (s : WorkflowStore) where
  abbrev key : String
  key = reply_key sha1 session stage

  abbrev kept : List Job
  kept = delete_where (finished key) s.jobs

  abbrev fresh : Job
  fresh = new_job s.next_job_id key session.session_id stage session now now

  jobs-enqueue_job :
      (session.session_id == "") ≡ false
      → (enqueue_job sha1 now session stage s).0.jobs
        ≡ (if exists_where (has_dedupe_key key) kept then kept else kept ++ fresh ∷ [])
  unfolding enqueue_job insert_or_ignore
  jobs-enqueue_job h = ground arith

  -- a job with the key is in the table once the call is over
  exists-enqueue_job :
      (session.session_id == "") ≡ false
      → exists_where (has_dedupe_key key) (enqueue_job sha1 now session stage s).0.jobs ≡ true
  unfolding exists_where find_where
  exists-enqueue_job h = elim (Bool-cases (exists_where (has_dedupe_key key) kept)) [
    | inl e ↦ rw (jobs-enqueue_job h, e) e
    | inr e ↦ ground (
      arith,
      jobs-enqueue_job h,
      eq_iff key key,
      find_where-append (has_dedupe_key key) kept (fresh ∷ []),
    )
  ]

  -- and none with the key is finished
  unfinished-enqueue_job :
      (session.session_id == "") ≡ false
      → All (λ j. finished key j ≡ false) (enqueue_job sha1 now session stage s).0.jobs
  unfinished-enqueue_job h = elim (Bool-cases (exists_where (has_dedupe_key key) kept)) [
    | inl e ↦ rw (jobs-enqueue_job h, e) (delete_where_holds (finished key) s.jobs)
    | inr e ↦
        rw (jobs-enqueue_job h, e)
          (All-append (λ j. finished key j ≡ false) kept (fresh ∷ [])
            (delete_where_holds (finished key) s.jobs) (ground arith, tt))
  ]

-- A session that is enqueued again while its job is unfinished is refused, and nothing
-- but the counter of the ids changes.
pub enqueue_job-enqueue_job :
    (sha1 : String → String) (now now' : ℕ) (session : Session) (stage : String) (s : WorkflowStore)
    → (session.session_id == "") ≡ false
    → let s' = (enqueue_job sha1 now session stage s).0 in
      enqueue_job sha1 now' session stage s'
      ≡ (record s' { next_job_id = suc s'.next_job_id }, false)
unfolding enqueue_job insert_or_ignore
enqueue_job-enqueue_job sha1 now now' session stage s h =
    let s' = (enqueue_job sha1 now session stage s).0 in
    ground (
      arith,
      exists-enqueue_job sha1 now session stage s h,
      delete_where_none (finished (reply_key sha1 session stage)) s'.jobs
          (unfinished-enqueue_job sha1 now session stage s h),
    )
