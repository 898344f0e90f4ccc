-- ===== src/Workflow/Jobs/Invariant.antt =====
-- What holds of the job table between any two statements of any number of workers.
use mathlib.Core.List.{map-append}
use realxianyu.Base.{
  ℕ, suc, ◌+◌, ◌<◌, ◌≡◌, refl, Bool, false, ◌&&◌, ◌||◌, Option, none, some, List, [], ◌∷◌, ◌++◌,
  map, String, arith, ◌==◌, string_eq, nat_eq, Bool-cases, inl, inr, is_some, leb, max,
}
use realxianyu.Base.Lists.{take, All, All-append, All-mono, Pairs, Pairs-append_one}
use realxianyu.Base.Table.{update_where, delete_where, select_where, find_where, exists_where}
use realxianyu.Base.Table.Laws.{All-update_where, All-delete_where}
use realxianyu.Base.Table.Columns.{map-update_where, All-map-delete_where, Pairs-map-delete_where}
use realxianyu.Workflow.Rows.{Session, pending, done, Job, WorkflowStore}
use realxianyu.Workflow.Jobs.{
  is_pending, is_running, is_settled, has_dedupe_key, new_job, insert_or_ignore, enqueue_job,
  enqueue_delayed_job, is_expired, recover_expired_jobs, start, is_due, claim_rows, claim_jobs,
  reply_key, delayed_key, payload_or, backoff, is_held, complete_job, bury, retry, fail_row,
  fail_job,
}

abbrev pub job_id : Job → ℕ
job_id j = j.id

abbrev pub job_key : Job → String
job_key j = j.dedupe_key

-- a job has a lease exactly while it runs
abbrev pub HasLease : Job → Type 0
HasLease j = is_some j.lease_until ≡ is_running j.status

abbrev pub KeysDiffer : String → String → Type 0
KeysDiffer a b = (a == b) ≡ false

-- Ids ascend in the order of the table and lie below the counter, no two jobs share a dedupe
-- key, and a job has a lease exactly while it runs.
pub record IsValid (jobs : List Job) (next : ℕ) : Type 0 where
  pub ids_ascend : Pairs ◌<◌ (map job_id jobs)
  pub ids_below : All (λ i. i < next) (map job_id jobs)
  pub keys_differ : Pairs KeysDiffer (map job_key jobs)
  pub leases : All HasLease jobs

-- An UPDATE that leaves ids and keys alone and sets the lease with the status keeps the table valid.
pub update_where-IsValid :
    (p : Job → Bool) (f : Job → Job) (jobs : List Job) (next : ℕ)
    → ((j : Job) → (f j).id ≡ j.id)
    → ((j : Job) → (f j).dedupe_key ≡ j.dedupe_key)
    → ((j : Job) → HasLease (f j))
    → IsValid jobs next
    → IsValid (update_where p f jobs) next
update_where-IsValid p f jobs next ids keys leases v = record {
  ids_ascend = rw (map-update_where p f job_id jobs ids) v.ids_ascend;
  ids_below = rw (map-update_where p f job_id jobs ids) v.ids_below;
  keys_differ = rw (map-update_where p f job_key jobs keys) v.keys_differ;
  leases = All-update_where HasLease HasLease p f jobs (λ j _ _. leases j) (λ j h _. h) v.leases;
}

delete_where-IsValid :
    (p : Job → Bool) (jobs : List Job) (next : ℕ)
    → IsValid jobs next
    → IsValid (delete_where p jobs) next
delete_where-IsValid p jobs next v = record {
  ids_ascend = Pairs-map-delete_where p job_id ◌<◌ jobs v.ids_ascend;
  ids_below = All-map-delete_where p job_id (λ i. i < next) jobs v.ids_below;
  keys_differ = Pairs-map-delete_where p job_key KeysDiffer jobs v.keys_differ;
  leases = All-delete_where HasLease p jobs v.leases;
}

-- no job has the key that a SELECT does not find
unused_key :
    (k : String) (jobs : List Job)
    → exists_where (has_dedupe_key k) jobs ≡ false
    → All (λ a. KeysDiffer a k) (map job_key jobs)
unfolding exists_where find_where
unused_key k [] h = tt
unused_key k (j ∷ jobs) h = elim (Bool-cases (j.dedupe_key == k)) [
  | inl e ↦ ground arith
  | inr e ↦ (e, unused_key k jobs (ground arith))
]

map-append_one :
    {B : Type 0} (g : Job → B) (xs : List Job) (y : Job)
    → map g (xs ++ y ∷ []) ≡ map g xs ++ g y ∷ []
map-append_one g xs y = simp map-append

insert_or_ignore-IsValid :
    (job : Job) (s : WorkflowStore)
    → job.id ≡ s.next_job_id
    → HasLease job
    → IsValid s.jobs s.next_job_id
    → let s' = (insert_or_ignore job s).0 in IsValid s'.jobs s'.next_job_id
unfolding insert_or_ignore
insert_or_ignore-IsValid job s id lease v =
    elim (Bool-cases (exists_where (has_dedupe_key job.dedupe_key) s.jobs)) [
      | inl e ↦ rw e (record {
        ids_ascend = v.ids_ascend;
        ids_below =
            All-mono (λ i. i < s.next_job_id) (λ i. i < suc s.next_job_id) (map job_id s.jobs)
              (λ i h. omega arith) v.ids_below;
        keys_differ = v.keys_differ;
        leases = v.leases;
      })
      | inr e ↦ rw e (record {
        ids_ascend =
            rw (map-append_one job_id s.jobs job, id)
              (Pairs-append_one ◌<◌ (map job_id s.jobs) s.next_job_id v.ids_ascend v.ids_below);
        ids_below =
            rw (map-append_one job_id s.jobs job, id)
              (All-append (λ i. i < suc s.next_job_id) (map job_id s.jobs) (s.next_job_id ∷ [])
                (All-mono (λ i. i < s.next_job_id) (λ i. i < suc s.next_job_id) (map job_id s.jobs)
                  (λ i h. omega arith) v.ids_below)
                (omega arith));
        keys_differ = rw (map-append_one job_key s.jobs job) (
            Pairs-append_one KeysDiffer (map job_key s.jobs) job.dedupe_key v.keys_differ
              (unused_key job.dedupe_key s.jobs e));
        leases = All-append HasLease s.jobs (job ∷ []) v.leases (lease, tt);
      })
    ]

abbrev pub JobsValid : WorkflowStore → Type 0
JobsValid s = IsValid s.jobs s.next_job_id

pub enqueue_job-JobsValid :
    (sha1 : String → String) (now : ℕ) (session : Session) (stage : String) (s : WorkflowStore)
    → JobsValid s
    → JobsValid (enqueue_job sha1 now session stage s).0
unfolding enqueue_job
enqueue_job-JobsValid sha1 now session stage s v =
    let key = reply_key sha1 session stage in
    let gone = λ (j : Job). has_dedupe_key key j && is_settled j.status in
    ground (
      arith,
      insert_or_ignore-IsValid (new_job s.next_job_id key session.session_id stage session now now)
          (record s { jobs = delete_where gone s.jobs }) refl refl
          (delete_where-IsValid gone s.jobs s.next_job_id v),
    )

pub enqueue_delayed_job-JobsValid :
    (now later : ℕ) (sid stage : String) (delay : ℕ) (payload : Option Session) (s : WorkflowStore)
    → JobsValid s
    → JobsValid (enqueue_delayed_job now later sid stage delay payload s).0
unfolding enqueue_delayed_job
enqueue_delayed_job-JobsValid now later sid stage delay payload s v =
    let key = delayed_key sid stage in
    let gone = λ (j : Job). has_dedupe_key key j && (is_settled j.status || is_pending j.status) in
    ground (
      arith,
      insert_or_ignore-IsValid
          (new_job s.next_job_id key sid stage (payload_or sid payload) (later + delay) now)
          (record s { jobs = delete_where gone s.jobs }) refl refl
          (delete_where-IsValid gone s.jobs s.next_job_id v),
    )

pub recover_expired_jobs-JobsValid :
    (now : ℕ) (s : WorkflowStore) → JobsValid s → JobsValid (recover_expired_jobs now s).0
unfolding recover_expired_jobs
recover_expired_jobs-JobsValid now s v =
    update_where-IsValid (is_expired now)
      (λ j. record j { status = pending; lease_until = none; updated_at = now }) s.jobs
      s.next_job_id (λ j. refl) (λ j. refl) (λ j. refl) v

claim_rows-IsValid :
    (now lease : ℕ) (rows jobs : List Job) (next : ℕ)
    → IsValid jobs next
    → IsValid (claim_rows now lease rows jobs).0 next
unfolding claim_rows
claim_rows-IsValid now lease [] jobs next v = v
claim_rows-IsValid now lease (r ∷ rows) jobs next v =
    claim_rows-IsValid now lease rows
      (update_where (λ j. j.id == r.id && is_due now j) (start now lease) jobs) next
      (update_where-IsValid (λ j. j.id == r.id && is_due now j) (start now lease) jobs next
        (λ j. refl) (λ j. refl) (λ j. refl) v)

pub claim_jobs-JobsValid :
    (now later limit lease_seconds : ℕ) (s : WorkflowStore)
    → JobsValid s
    → JobsValid (claim_jobs now later limit lease_seconds s).0
unfolding claim_jobs
claim_jobs-JobsValid now later limit lease_seconds s v =
    claim_rows-IsValid now (later + lease_seconds)
      (take (max 1 limit) (select_where (is_due now) s.jobs)) s.jobs s.next_job_id v

pub complete_job-JobsValid :
    (now id : ℕ) (expected : Option ℕ) (s : WorkflowStore)
    → JobsValid s
    → JobsValid (complete_job now id expected s).0
unfolding complete_job
complete_job-JobsValid now id expected s v =
    update_where-IsValid (is_held id expected)
      (λ j. record j { status = done; lease_until = none; updated_at = now }) s.jobs s.next_job_id
      (λ j. refl) (λ j. refl) (λ j. refl) v

fail_row-JobsValid :
    (now later id : ℕ) (error : String) (max_attempts base : ℕ) (expected : Option ℕ)
    (s : WorkflowStore) (row : Option Job)
    → JobsValid s
    → JobsValid (fail_row now later id error max_attempts base expected s row).0
unfolding fail_row
fail_row-JobsValid now later id error max_attempts base expected s none v = v
fail_row-JobsValid now later id error max_attempts base expected s (some row) v =
    elim (Bool-cases (leb max_attempts (row.attempts + 1))) [
      | inl e ↦ rw e (
          update_where-IsValid (is_held id expected) (bury now (row.attempts + 1) error) s.jobs
            s.next_job_id (λ j. refl) (λ j. refl) (λ j. refl) v)
      | inr e ↦ rw e (
          update_where-IsValid (is_held id expected)
            (retry now (row.attempts + 1) (later + backoff base (row.attempts + 1)) error) s.jobs
            s.next_job_id (λ j. refl) (λ j. refl) (λ j. refl) v)
    ]

pub fail_job-JobsValid :
    (now later id : ℕ) (error : String) (max_attempts base : ℕ) (expected : Option ℕ)
    (s : WorkflowStore)
    → JobsValid s
    → JobsValid (fail_job now later id error max_attempts base expected s).0
unfolding fail_job
fail_job-JobsValid now later id error max_attempts base expected s v =
    fail_row-JobsValid now later id error max_attempts base expected s
      (find_where (is_held id expected) s.jobs) v
