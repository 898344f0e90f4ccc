-- ===== src/Workflow/Rows.antt =====
-- The rows of the tables of `WorkflowStore` in src/modules/messages/workflow.py, and the store as
-- a record of its tables. Times are whole seconds, which the source formats as ISO texts of one
-- width, ordered as the seconds are.
use realxianyu.Base.{ℕ, Bool, Option, List, String}
use realxianyu.ManualMode.{ManualModeStore}
use realxianyu.Workflow.States.{WorkflowState}

-- A session as the message service reports it. The source reads a missing key as "".
pub record Session : Type 0 where
  pub session_id : String
  pub last_message : String
  pub peer_name : String
  pub item_title : String

-- a row of session_tasks
pub record SessionTask : Type 0 where
  pub session_id : String
  pub state : WorkflowState
  pub manual_takeover : Bool
  pub last_message_hash : Option String
  pub last_peer_name : Option String
  pub last_item_title : Option String
  pub last_error : Option String
  pub created_at : ℕ
  pub updated_at : ℕ

pub data TransitionStatus : Type 0 where
  success rejected forced : TransitionStatus

-- a row of session_state_transitions; `metadata` is its JSON text
pub record Transition : Type 0 where
  pub session_id : String
  pub from_state : String
  pub to_state : WorkflowState
  pub status : TransitionStatus
  pub reason : String
  pub metadata : String
  pub error : Option String
  pub created_at : ℕ

pub data JobStatus : Type 0 where
  pending running done dead : JobStatus

-- a row of workflow_jobs
pub record Job : Type 0 where
  pub id : ℕ
  pub dedupe_key : String
  pub session_id : String
  pub stage : String
  pub payload : Session
  pub status : JobStatus
  pub attempts : ℕ
  pub next_run_at : ℕ
  pub lease_until : Option ℕ
  pub last_error : Option String
  pub created_at : ℕ
  pub updated_at : ℕ

-- a row of sla_events
pub record SlaEvent : Type 0 where
  pub session_id : String
  pub stage : String
  pub outcome : String
  pub latency_ms : ℕ
  pub quote_fallback : Bool
  pub intent : String
  pub created_at : ℕ

-- the message of an alert, by the numbers that its text shows
pub data SlaMessage : Type 0 where
  reply_p95_message quote_success_message : ℕ → ℕ → SlaMessage

-- a row of sla_alerts; every row is active, since nothing resolves one
pub record SlaAlert : Type 0 where
  pub alert_type : String
  pub title : String
  pub message : SlaMessage
  pub created_at : ℕ

-- `next_job_id` is the AUTOINCREMENT counter of workflow_jobs. `notified` lists the sessions for
-- which `send_system_notification` was called, in order.
pub record WorkflowStore : Type 0 where
  pub sessions : List SessionTask
  pub transitions : List Transition
  pub jobs : List Job
  pub next_job_id : ℕ
  pub sla_events : List SlaEvent
  pub sla_alerts : List SlaAlert
  pub manual_mode : Option ManualModeStore
  pub notified : List String
