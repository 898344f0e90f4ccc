-- ===== src/Workflow/Tests.antt =====
-- Runs of the workflow of src/modules/messages/workflow.py on small stores, and the theorems of
-- this folder at concrete inputs.
mod Queue
mod Sessions
mod Loops
use realxianyu.Base.{ℕ, Bool, true, false, Option, none, some, List, [], ◌∷◌, String}
use realxianyu.Workflow.States.{quoted, replied}
use realxianyu.Workflow.Rows.{
  Session, SessionTask, JobStatus, pending, running, done, Job, WorkflowStore,
}
use realxianyu.Workflow.Jobs.Invariant.{IsValid, JobsValid}
use realxianyu.Base.{arith}

abbrev pub sha1 : String → String
sha1 t = t

abbrev pub hello : Session
hello = record { session_id = "s9"; last_message = "hi"; peer_name = "ann"; item_title = "lamp" }

abbrev pub job_of : ℕ → String → JobStatus → ℕ → ℕ → Option ℕ → Job
job_of id key status attempts next_run_at lease = record {
  id = id;
  dedupe_key = key;
  session_id = "s1";
  stage = "reply";
  payload = hello;
  status = status;
  attempts = attempts;
  next_run_at = next_run_at;
  lease_until = lease;
  last_error = none;
  created_at = 0;
  updated_at = 0;
}

abbrev pub due_job : Job
due_job = job_of 1 "a" pending 0 5 none

abbrev pub held_job : Job
held_job = job_of 2 "b" running 1 0 (some 30)

abbrev pub task : SessionTask
task = record {
  session_id = "s1";
  state = quoted;
  manual_takeover = false;
  last_message_hash = none;
  last_peer_name = none;
  last_item_title = none;
  last_error = none;
  created_at = 0;
  updated_at = 0;
}

-- a due job, a running one, a finished one and one that is not due yet
abbrev pub queue : WorkflowStore
queue = record {
  sessions = task ∷ [];
  transitions = [];
  jobs = due_job ∷ held_job ∷ job_of 3 "c" done 0 0 none ∷ job_of 4 "d" pending 2 90 none ∷ [];
  next_job_id = 5;
  sla_events = [];
  sla_alerts = [];
  manual_mode = none;
  notified = [];
}

pub queue-JobsValid : JobsValid queue
queue-JobsValid = record {
  ids_ascend = ground arith;
  ids_below = ground arith;
  keys_differ = ground arith;
  leases = ground arith;
}
