-- ===== src/Workflow/Steps.antt =====
-- Every interleaving of the methods of `WorkflowStore` in src/modules/messages/workflow.py, by any
-- number of workers and other callers: each method is one transaction, so a run is a sequence of
-- steps. `m` is the `max_attempts` of the workers.
use realxianyu.Base.{ℕ, ◌<◌, Bool, Option, String, arith, string_eq}
use realxianyu.Base.Lists.{All}
use realxianyu.Workflow.States.{WorkflowState}
use realxianyu.Workflow.Rows.{Session, SlaMessage, WorkflowStore}
use realxianyu.Workflow.Store.{ensure_session, set_manual_takeover, transition_state, force_state}
use realxianyu.Workflow.Jobs.{
  enqueue_job, enqueue_delayed_job, recover_expired_jobs, claim_jobs, complete_job, fail_job,
}
use realxianyu.Workflow.Jobs.Invariant.{
  JobsValid, enqueue_job-JobsValid, enqueue_delayed_job-JobsValid, recover_expired_jobs-JobsValid,
  claim_jobs-JobsValid, complete_job-JobsValid, fail_job-JobsValid,
}
use realxianyu.Workflow.Jobs.Attempts.{
  IsBounded, enqueue_job-IsBounded, enqueue_delayed_job-IsBounded, recover_expired_jobs-IsBounded,
  claim_jobs-IsBounded, complete_job-IsBounded, fail_job-IsBounded,
}
use realxianyu.Workflow.Sla.{record_sla_event, raise_alert_once}

pub data Step (m : ℕ) : WorkflowStore → WorkflowStore → Type 0 where
  ensure :
      (sha1 : String → String) (now : ℕ) (session : Session) (s : WorkflowStore)
      → Step m s (ensure_session sha1 now session s)
  takeover :
      (now clock : ℕ) (sid : String) (enabled : Bool) (s : WorkflowStore)
      → Step m s (set_manual_takeover now clock sid enabled s).0
  transition :
      (now : ℕ) (sid : String) (to_state : WorkflowState) (reason metadata : String)
      (s : WorkflowStore)
      → Step m s (transition_state now sid to_state reason metadata s).0
  force :
      (now : ℕ) (sid : String) (to_state : WorkflowState) (reason metadata : String)
      (s : WorkflowStore)
      → Step m s (force_state now sid to_state reason metadata s).0
  enqueue :
      (sha1 : String → String) (now : ℕ) (session : Session) (stage : String) (s : WorkflowStore)
      → Step m s (enqueue_job sha1 now session stage s).0
  delay :
      (now later : ℕ) (sid stage : String) (seconds : ℕ) (payload : Option Session)
      (s : WorkflowStore)
      → Step m s (enqueue_delayed_job now later sid stage seconds payload s).0
  recover : (now : ℕ) (s : WorkflowStore) → Step m s (recover_expired_jobs now s).0
  claim :
      (now later limit lease_seconds : ℕ) (s : WorkflowStore)
      → Step m s (claim_jobs now later limit lease_seconds s).0
  complete :
      (now id : ℕ) (expected : Option ℕ) (s : WorkflowStore)
      → Step m s (complete_job now id expected s).0
  fail :
      (now later id : ℕ) (error : String) (base : ℕ) (expected : Option ℕ) (s : WorkflowStore)
      → Step m s (fail_job now later id error m base expected s).0
  sla :
      (now : ℕ) (sid stage outcome : String) (latency : ℕ) (fallback : Bool) (intent : String)
      (s : WorkflowStore)
      → Step m s (record_sla_event now sid stage outcome latency fallback intent s)
  alert :
      (now later : ℕ) (alert_type title : String) (message : SlaMessage) (cooldown : ℕ)
      (s : WorkflowStore)
      → Step m s (raise_alert_once now later alert_type title message cooldown s).0

pub data Reach (m : ℕ) (s : WorkflowStore) : WorkflowStore → Type 0 where
  here : Reach m s s
  next : {t u : WorkflowStore} → Reach m s t → Step m t u → Reach m s u

pub Step-JobsValid : {m : ℕ} {s t : WorkflowStore} → Step m s t → JobsValid s → JobsValid t
unfolding ensure_session set_manual_takeover transition_state force_state record_sla_event
    raise_alert_once
Step-JobsValid (ensure sha1 now session s) v = ground arith
Step-JobsValid (takeover now clock sid enabled s) v = v
Step-JobsValid (transition now sid to_state reason metadata s) v = ground arith
Step-JobsValid (force now sid to_state reason metadata s) v = v
Step-JobsValid (enqueue sha1 now session stage s) v =
    enqueue_job-JobsValid sha1 now session stage s v
Step-JobsValid (delay now later sid stage seconds payload s) v =
    enqueue_delayed_job-JobsValid now later sid stage seconds payload s v
Step-JobsValid (recover now s) v = recover_expired_jobs-JobsValid now s v
Step-JobsValid (claim now later limit lease_seconds s) v =
    claim_jobs-JobsValid now later limit lease_seconds s v
Step-JobsValid (complete now id expected s) v = complete_job-JobsValid now id expected s v
Step-JobsValid {m} (fail now later id error base expected s) v =
    fail_job-JobsValid now later id error m base expected s v
Step-JobsValid (sla now sid stage outcome latency fallback intent s) v = v
Step-JobsValid (alert now later alert_type title message cooldown s) v = ground arith

-- However the methods are interleaved, the job table stays valid: ids ascend below the counter, no
-- two jobs share a dedupe key, and a job has a lease exactly while it runs.
pub Reach-JobsValid : {m : ℕ} {s t : WorkflowStore} → JobsValid s → Reach m s t → JobsValid t
Reach-JobsValid v here = v
Reach-JobsValid v (next r step) = Step-JobsValid step (Reach-JobsValid v r)

pub Step-IsBounded :
    {m : ℕ} {s t : WorkflowStore}
    → 0 < m
    → Step m s t
    → All (IsBounded m) s.jobs
    → All (IsBounded m) t.jobs
unfolding ensure_session set_manual_takeover transition_state force_state record_sla_event
    raise_alert_once
Step-IsBounded pos (ensure sha1 now session s) h = ground arith
Step-IsBounded pos (takeover now clock sid enabled s) h = h
Step-IsBounded pos (transition now sid to_state reason metadata s) h = ground arith
Step-IsBounded pos (force now sid to_state reason metadata s) h = h
Step-IsBounded {m} pos (enqueue sha1 now session stage s) h =
    enqueue_job-IsBounded m pos sha1 now session stage s h
Step-IsBounded {m} pos (delay now later sid stage seconds payload s) h =
    enqueue_delayed_job-IsBounded m pos now later sid stage seconds payload s h
Step-IsBounded {m} pos (recover now s) h = recover_expired_jobs-IsBounded m pos now s h
Step-IsBounded {m} pos (claim now later limit lease_seconds s) h =
    claim_jobs-IsBounded m pos now later limit lease_seconds s h
Step-IsBounded {m} pos (complete now id expected s) h =
    complete_job-IsBounded m pos now id expected s h
Step-IsBounded {m} pos (fail now later id error base expected s) h =
    fail_job-IsBounded m pos now later id error base expected s h
Step-IsBounded pos (sla now sid stage outcome latency fallback intent s) h = h
Step-IsBounded pos (alert now later alert_type title message cooldown s) h = ground arith

-- Where `max_attempts` is positive, and a table has no job that failed more than `max_attempts` times
-- and none pending or running that failed that often, the same holds however the methods are
-- interleaved after that.
pub Reach-IsBounded :
    {m : ℕ} {s t : WorkflowStore}
    → 0 < m
    → All (IsBounded m) s.jobs
    → Reach m s t
    → All (IsBounded m) t.jobs
Reach-IsBounded pos h here = h
Reach-IsBounded pos h (next r step) = Step-IsBounded pos step (Reach-IsBounded pos h r)
