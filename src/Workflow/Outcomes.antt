-- ===== src/Workflow/Outcomes.antt =====
-- What the worker of src/modules/messages/workflow.py is given from outside the store: the replies
-- of the message service, the clocks and its settings. The message service reaches the store only
-- by `set_manual_takeover`, and `takeovers` lists those calls.
use realxianyu.Base.{ℕ, Bool, List, String}
use realxianyu.Workflow.Jobs.{WorkflowJob}
use realxianyu.Workflow.Sla.{SlaConfig}

-- what `process_session` returns; a missing key reads as false or ""
pub record Detail : Type 0 where
  pub sent : Bool
  pub skipped : Bool
  pub reason : String
  pub rule_matched : String
  pub is_quote : Bool
  pub quote_need_info : Bool
  pub quote_success : Bool
  pub quote_fallback : Bool
  pub last_message : String
  pub reply : String
  pub peer_name : String

pub data Outcome : Type 0 where
  returned : Detail → Outcome
  raised : String → Outcome

-- `reply_to_session`: whether the text was sent, or an exception
pub data Reply : Type 0 where
  sent not_sent reply_raised : Reply

-- the metadata of the transition after a reply
pub record Metadata : Type 0 where
  pub quote : Bool
  pub quote_success : Bool
  pub buyer_message : String
  pub reply_text : String
  pub peer_name : String
  pub intent : String
  pub rule_matched : String

-- `now` is `_now` while a job is handled, and `clock` is `time.time` there.
pub record Env : Type 0 where
  pub sha1 : String → String
  pub dumps : Metadata → String
  pub process_session : WorkflowJob → Outcome
  pub takeovers : WorkflowJob → List (String × Bool)
  pub reply_to_session : WorkflowJob → Reply
  pub latency_ms : WorkflowJob → ℕ
  pub now : WorkflowJob → ℕ
  pub clock : WorkflowJob → ℕ

pub record WorkflowWorker : Type 0 where
  pub claim_limit : ℕ
  pub lease_seconds : ℕ
  pub max_attempts : ℕ
  pub backoff_seconds : ℕ
  pub sla_config : SlaConfig
  pub notify_on_alert : Bool
  pub notify_recovery : Bool
  pub quote_nudge_enabled : Bool
  pub quote_nudge_delay_seconds : ℕ
  pub had_active_alert : Bool

-- how a handled job is counted; a completion that loses its lease is not counted at all
pub data Tally : Type 0 where
  success failed skipped_manual uncounted : Tally
