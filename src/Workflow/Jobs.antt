-- ===== src/Workflow/Jobs.antt =====
-- The job queue of `WorkflowStore` in src/modules/messages/workflow.py: jobs are deduplicated by
-- key, claimed under a lease, completed or failed by the holder of the lease, and retried with
-- backoff. `now` and `later` are successive readings of the clock. The proofs are in the modules
-- below.
pub mod Invariant
pub mod Claims
pub mod Dedupe
pub mod Attempts
pub mod Leases
pub mod Failures
pub mod Exclusion
use realxianyu.Base.{
  ℕ, suc, ◌+◌, ◌-◌, ◌*◌, ◌^◌, max, Bool, true, false, ◌&&◌, ◌||◌, Option, none, some, List, [], ◌∷◌,
  ◌++◌, String, ltb, leb, Comparable, ◌==◌, nat_eq, string_eq, if◌then◌else◌, text_append,
  text_take, is_some,
}
use realxianyu.Base.Lists.{take}
use realxianyu.Base.Table.{
  update_where, count_where, delete_where, select_where, find_where, exists_where,
}
use realxianyu.Workflow.Rows.{
  Session, JobStatus, pending, running, done, dead, Job, Transition, success, WorkflowStore,
}
use realxianyu.Workflow.States.{new}

-- `WorkflowJob`: what a worker is handed when it claims a job
pub record WorkflowJob : Type 0 where
  pub id : ℕ
  pub session_id : String
  pub stage : String
  pub payload : Session
  pub attempts : ℕ
  pub lease_until : Option ℕ

abbrev pub is_pending : JobStatus → Bool
is_pending pending = true
is_pending _ = false

abbrev pub is_running : JobStatus → Bool
is_running running = true
is_running _ = false

-- status IN ('done', 'dead')
abbrev pub is_settled : JobStatus → Bool
is_settled done = true
is_settled dead = true
is_settled _ = false

abbrev pub has_dedupe_key : String → Job → Bool
has_dedupe_key k j = j.dedupe_key == k

abbrev pub new_job : ℕ → String → String → String → Session → ℕ → ℕ → Job
new_job id key sid stage payload run_at now = record {
  id = id;
  dedupe_key = key;
  session_id = sid;
  stage = stage;
  payload = payload;
  status = pending;
  attempts = 0;
  next_run_at = run_at;
  lease_until = none;
  last_error = none;
  created_at = now;
  updated_at = now;
}

-- INSERT OR IGNORE INTO workflow_jobs: the UNIQUE dedupe_key decides. The Bool is `rowcount > 0`. The
-- AUTOINCREMENT counter advances in both cases.
unfoldable pub insert_or_ignore : Job → WorkflowStore → WorkflowStore × Bool
unfolding find_where exists_where
insert_or_ignore job s =
    if exists_where (has_dedupe_key job.dedupe_key) s.jobs
    then (record s { next_job_id = suc s.next_job_id }, false)
    else (record s { jobs = s.jobs ++ job ∷ []; next_job_id = suc s.next_job_id }, true)

abbrev pub reply_key : (String → String) → Session → String → String
reply_key sha1 session stage = text_append session.session_id (
    text_append ":"
      (text_append (text_take 16 (sha1 session.last_message)) (text_append ":" stage)))

abbrev pub received : String → ℕ → Transition
received sid now = record {
  session_id = sid;
  from_state = "none";
  to_state = new;
  status = success;
  reason = "msg_received";
  metadata = "{}";
  error = none;
  created_at = now;
}

unfoldable pub enqueue_job :
    (String → String) → ℕ → Session → String → WorkflowStore → WorkflowStore × Bool
unfolding delete_where insert_or_ignore
enqueue_job sha1 now session stage s =
    let sid = session.session_id in
    let key = reply_key sha1 session stage in
    let kept = delete_where (λ j. has_dedupe_key key j && is_settled j.status) s.jobs in
    let (s', inserted) =
      insert_or_ignore (new_job s.next_job_id key sid stage session now now)
        (record s { jobs = kept }) in
    if sid == ""
    then (s, false)
    else if inserted && stage == "reply"
    then (record s' { transitions = s'.transitions ++ received sid now ∷ [] }, inserted)
    else (s', inserted)

abbrev pub delayed_key : String → String → String
delayed_key sid stage = text_append sid (text_append ":delayed:" stage)

-- `{"session_id": …}`
abbrev pub session_only : String → Session
session_only sid = record { session_id = sid; last_message = ""; peer_name = ""; item_title = "" }

-- payload or {"session_id": session_id}, where none stands for None and {}
abbrev pub payload_or : String → Option Session → Session
payload_or sid none = session_only sid
payload_or sid (some payload) = payload

unfoldable pub enqueue_delayed_job :
    ℕ → ℕ → String → String → ℕ → Option Session → WorkflowStore → WorkflowStore × Bool
unfolding delete_where insert_or_ignore
enqueue_delayed_job now later sid stage delay payload s =
    let key = delayed_key sid stage in
    let kept =
      delete_where (λ j. has_dedupe_key key j && (is_settled j.status || is_pending j.status))
        s.jobs in
    if sid == ""
    then (s, false)
    else insert_or_ignore
        (new_job s.next_job_id key sid stage (payload_or sid payload) (later + delay) now)
        (record s { jobs = kept })

-- lease_until IS NOT NULL AND lease_until < now
abbrev pub lease_expired : ℕ → Option ℕ → Bool
lease_expired now none = false
lease_expired now (some t) = ltb t now

abbrev pub is_expired : ℕ → Job → Bool
is_expired now j = is_running j.status && lease_expired now j.lease_until

unfoldable pub recover_expired_jobs : ℕ → WorkflowStore → WorkflowStore × ℕ
unfolding update_where count_where
recover_expired_jobs now s = (
  record s {
    jobs =
        update_where (is_expired now)
          (λ j. record j { status = pending; lease_until = none; updated_at = now }) s.jobs;
  },
  count_where (is_expired now) s.jobs,
)

abbrev pub is_due : ℕ → Job → Bool
is_due now j = is_pending j.status && leb j.next_run_at now

abbrev pub start : ℕ → ℕ → Job → Job
start now lease j = record j { status = running; lease_until = some lease; updated_at = now }

abbrev pub handed : ℕ → Job → WorkflowJob
handed lease j = record {
  id = j.id;
  session_id = j.session_id;
  stage = j.stage;
  payload = j.payload;
  attempts = j.attempts;
  lease_until = some lease;
}

-- the loop of `claim_jobs` over the selected rows
unfoldable pub claim_rows : ℕ → ℕ → List Job → List Job → List Job × List WorkflowJob
unfolding update_where count_where
claim_rows now lease [] jobs = (jobs, [])
claim_rows now lease (r ∷ rs) jobs =
    let mine = λ (j : Job). j.id == r.id && is_due now j in
    let taken = count_where mine jobs in
    let (jobs', rest) = claim_rows now lease rs (update_where mine (start now lease) jobs) in
    (jobs', if leb taken 0 then rest else handed lease r ∷ rest)

unfoldable pub claim_jobs : ℕ → ℕ → ℕ → ℕ → WorkflowStore → WorkflowStore × List WorkflowJob
unfolding claim_rows select_where
claim_jobs now later limit lease_seconds s =
    let rows = take (max 1 limit) (select_where (is_due now) s.jobs) in
    let (jobs', claimed) = claim_rows now (later + lease_seconds) rows s.jobs in
    (record s { jobs = jobs' }, claimed)

-- lease_until=?, where a lease is expected
abbrev pub lease_fits : Option ℕ → Option ℕ → Bool
lease_fits none held = true
lease_fits (some t) none = false
lease_fits (some t) (some held) = held == t

-- id=? AND status='running' [AND lease_until=?]
abbrev pub is_held : ℕ → Option ℕ → Job → Bool
is_held job_id expected j =
    j.id == job_id && (is_running j.status && lease_fits expected j.lease_until)

unfoldable pub complete_job : ℕ → ℕ → Option ℕ → WorkflowStore → WorkflowStore × Bool
unfolding update_where count_where
complete_job now job_id expected s = (
  record s {
    jobs =
        update_where (is_held job_id expected)
          (λ j. record j { status = done; lease_until = none; updated_at = now }) s.jobs;
  },
  ltb 0 (count_where (is_held job_id expected) s.jobs),
)

-- base_backoff_seconds * 2 ** (attempts - 1)
abbrev pub backoff : ℕ → ℕ → ℕ
backoff base attempts = base * 2 ^ (attempts - 1)

abbrev pub bury : ℕ → ℕ → String → Job → Job
bury now attempts error j = record j {
  status = dead;
  attempts = attempts;
  lease_until = none;
  last_error = some (text_take 500 error);
  updated_at = now;
}

abbrev pub retry : ℕ → ℕ → ℕ → String → Job → Job
retry now attempts run_at error j = record j {
  status = pending;
  attempts = attempts;
  next_run_at = run_at;
  lease_until = none;
  last_error = some (text_take 500 error);
  updated_at = now;
}

unfoldable pub fail_row :
    ℕ → ℕ → ℕ → String → ℕ → ℕ → Option ℕ → WorkflowStore → Option Job → WorkflowStore × Bool
unfolding update_where count_where
fail_row now later job_id error max_attempts base expected s none = (s, false)
fail_row now later job_id error max_attempts base expected s (some row) =
    let attempts = row.attempts + 1 in
    let change =
      if leb max_attempts attempts
      then bury now attempts error
      else retry now attempts (later + backoff base attempts) error in
    (
      record s { jobs = update_where (is_held job_id expected) change s.jobs },
      ltb 0 (count_where (is_held job_id expected) s.jobs),
    )

unfoldable pub fail_job :
    ℕ → ℕ → ℕ → String → ℕ → ℕ → Option ℕ → WorkflowStore → WorkflowStore × Bool
unfolding fail_row find_where
fail_job now later job_id error max_attempts base expected s =
    fail_row now later job_id error max_attempts base expected s
      (find_where (is_held job_id expected) s.jobs)
