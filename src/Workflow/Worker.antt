-- ===== src/Workflow/Worker.antt =====
-- `WorkflowWorker` of src/modules/messages/workflow.py: one pass of the worker. What happens
-- outside the store while a job is handled (the message service, the clocks, `json.dumps`) is the
-- parameter `Env`. The proofs are in the modules below.
pub mod Released
pub mod Settles
use realxianyu.Base.{
  ℕ, suc, ◌+◌, Bool, true, false, not, ◌&&◌, ◌||◌, Option, none, some, List, [], ◌∷◌, ◌++◌, String,
  ◌==◌, string_eq, if◌then◌else◌, text_append, text_take, is_some,
}
use realxianyu.Base.Lists.{length}
use realxianyu.ManualMode
use realxianyu.ManualMode.{ManualModeStore}
use realxianyu.Workflow.States.{
  WorkflowState, replied, quoted, followed, ordered, closed, manual, state_eq,
}
use realxianyu.Workflow.Rows.{Session, SessionTask, WorkflowStore}
use realxianyu.Workflow.Store.{ensure_session, get_session, set_manual_takeover, transition_state}
use realxianyu.Workflow.Jobs.{
  WorkflowJob, session_only, enqueue_job, enqueue_delayed_job, recover_expired_jobs, claim_jobs,
  complete_job, fail_job,
}
use realxianyu.Workflow.Outcomes.{
  Detail, Outcome, returned, raised, sent, not_sent, reply_raised, Metadata, Env, WorkflowWorker,
  Tally, success, failed, skipped_manual, uncounted,
}
use realxianyu.Workflow.Sla.{Floats, Alert, record_sla_event, evaluate_sla_alerts}

abbrev pub is_unread : String → List Session → Bool
is_unread sid [] = false
is_unread sid (x ∷ xs) = x.session_id == sid || is_unread sid xs

-- the states in which a quote is not followed up
abbrev pub no_nudge : Option SessionTask → Bool
no_nudge none = false
no_nudge (some t) = elim t.state [
  | ordered ↦ true
  | followed ↦ true
  | closed ↦ true
  | manual ↦ true
  | _ ↦ false
]

-- `_handle_quote_nudge`; an exception of `reply_to_session` is logged and swallowed
unfoldable pub handle_quote_nudge :
    Env → List Session → Bool → WorkflowJob → WorkflowStore → WorkflowStore
handle_quote_nudge env unread dry_run job s =
    if is_unread job.session_id unread
    then s
    else if no_nudge (get_session job.session_id s)
    then s
    else if dry_run
    then s
    else elim (env.reply_to_session job) [
      | sent ↦ (transition_state (env.now job) job.session_id followed "quote_nudge" "{}" s).0
      | not_sent ↦ s
      | reply_raised ↦ s
    ]

abbrev pub wf_manual : Option SessionTask → Bool
wf_manual none = false
wf_manual (some t) = t.manual_takeover

-- `_manual_mode_store.get_state`, which may end the mode, and `set_state`
unfoldable pub read_manual_mode :
    ℕ → String → Option ManualModeStore → Option ManualModeStore × Bool
read_manual_mode clock sid none = (none, false)
read_manual_mode clock sid (some m) =
    let (m', r) = ManualMode.get_state clock sid m in (some m', r.state.enabled)

unfoldable pub write_manual_mode : ℕ → String → Option ManualModeStore → Option ManualModeStore
write_manual_mode clock sid none = none
write_manual_mode clock sid (some m) = some (ManualMode.set_state clock sid true m).0

-- the two stores of the manual mode brought into agreement
unfoldable pub align_manual : ℕ → ℕ → String → Bool → Bool → WorkflowStore → WorkflowStore
align_manual now clock sid wf mm s =
    if mm && not wf
    then (set_manual_takeover now clock sid true s).0
    else if wf && not mm
    then record s { manual_mode = write_manual_mode clock sid s.manual_mode }
    else s

-- the calls of `set_manual_takeover` by the message service
unfoldable pub apply_takeovers : ℕ → ℕ → List (String × Bool) → WorkflowStore → WorkflowStore
apply_takeovers now clock [] s = s
apply_takeovers now clock ((sid, enabled) ∷ calls) s =
    apply_takeovers now clock calls (set_manual_takeover now clock sid enabled s).0

abbrev pub intent_of : Detail → String
intent_of d = if d.rule_matched == "" then (if d.is_quote then "quote" else "") else d.rule_matched

abbrev pub metadata_of : Detail → Metadata
metadata_of d = record {
  quote = d.is_quote;
  quote_success = d.quote_success;
  buyer_message = text_take 200 d.last_message;
  reply_text = text_take 500 d.reply;
  peer_name = d.peer_name;
  intent = intent_of d;
  rule_matched = d.rule_matched;
}

abbrev pub sla_stage : Detail → String
sla_stage d =
    if d.is_quote && d.quote_need_info
    then "quote_need_info"
    else if d.is_quote
    then "quote"
    else "reply"

abbrev pub sla_outcome : Detail → String
sla_outcome d =
    if d.is_quote && d.quote_need_info
    then "need_info"
    else if d.is_quote
    then (if d.quote_success then "success" else "failed")
    else "success"

-- what follows a reply that was sent: the state, the follow-up, the SLA event
unfoldable pub after_reply :
    WorkflowWorker → Env → WorkflowJob → Detail → WorkflowStore → WorkflowStore
after_reply w env job d s =
    let now = env.now job in
    let next_state = if d.is_quote && d.quote_success then quoted else replied in
    let moved =
      (transition_state now job.session_id next_state "workflow_worker" (env.dumps (metadata_of d))
        s).0 in
    let nudged =
      if d.is_quote && (d.quote_success && w.quote_nudge_enabled)
      then (enqueue_delayed_job now now job.session_id "quote_nudge" w.quote_nudge_delay_seconds
          (some (session_only job.session_id)) moved).0
      else moved in
    record_sla_event now job.session_id (sla_stage d) (sla_outcome d) (env.latency_ms job)
      d.quote_fallback (intent_of d) nudged

unfoldable pub finish : ℕ → WorkflowJob → WorkflowStore → WorkflowStore × Bool
finish now job s = complete_job now job.id job.lease_until s

-- the `except` clause of the loop
unfoldable pub give_up :
    WorkflowWorker → ℕ → WorkflowJob → String → WorkflowStore → WorkflowStore × Tally
give_up w now job error s =
    ((fail_job now now job.id error w.max_attempts w.backoff_seconds job.lease_until s).0, failed)

unfoldable pub settle :
    WorkflowWorker → Env → WorkflowJob → Outcome → WorkflowStore → WorkflowStore × Tally
settle w env job (raised error) s = give_up w (env.now job) job error s
settle w env job (returned d) s =
    if not d.sent && not d.skipped
    then give_up w (env.now job) job (text_append "reply_not_sent:" d.reason) s
    else if d.skipped
    then ((finish (env.now job) job s).0, skipped_manual)
    else (let (s', completed) = finish (env.now job) job (after_reply w env job d s) in
        (s', if completed then success else uncounted))

-- the body of the loop of `run_once`, once the two stores have told whether the session is in
-- manual mode
unfoldable pub handle_in_mode :
    WorkflowWorker
    → Env
    → List Session
    → Bool
    → WorkflowJob
    → Bool
    → Bool
    → WorkflowStore
    → WorkflowStore × Tally
handle_in_mode w env unread dry_run job wf mm s =
    let now = env.now job in
    let clock = env.clock job in
    if wf || mm
    then ((finish now job (align_manual now clock job.session_id wf mm s)).0, skipped_manual)
    else if job.stage == "quote_nudge"
    then ((finish now job (handle_quote_nudge env unread dry_run job s)).0, success)
    else settle w env job (env.process_session job)
        (apply_takeovers now clock (env.takeovers job) s)

-- the body of the loop of `run_once` over the claimed jobs
unfoldable pub handle_job :
    WorkflowWorker → Env → List Session → Bool → WorkflowJob → WorkflowStore → WorkflowStore × Tally
handle_job w env unread dry_run job s =
    let wf = wf_manual (get_session job.session_id s) in
    let (mode, mm) = read_manual_mode (env.clock job) job.session_id s.manual_mode in
    handle_in_mode w env unread dry_run job wf mm (record s { manual_mode = mode })

unfoldable pub handle_jobs :
    WorkflowWorker
    → Env
    → List Session
    → Bool
    → List WorkflowJob
    → WorkflowStore
    → WorkflowStore × List Tally
handle_jobs w env unread dry_run [] s = (s, [])
handle_jobs w env unread dry_run (job ∷ jobs) s =
    let (s', tally) = handle_job w env unread dry_run job s in
    let (s'', tallies) = handle_jobs w env unread dry_run jobs s' in (s'', tally ∷ tallies)

-- The loop over the unread sessions; the number is that of the jobs enqueued. The readings of the
-- clock are those from the `k`th on, two for each session.
unfoldable pub enqueue_unread :
    (String → String) → (ℕ → ℕ) → ℕ → List Session → WorkflowStore → WorkflowStore × ℕ
enqueue_unread sha1 read k [] s = (s, 0)
enqueue_unread sha1 read k (session ∷ sessions) s =
    let (s', inserted) =
      enqueue_job sha1 (read (suc k)) session "reply" (ensure_session sha1 (read k) session s) in
    let (s'', n) = enqueue_unread sha1 read (suc (suc k)) sessions s' in
    (s'', if inserted then suc n else n)

pub data Notice : Type 0 where
  alert_notice recovery_notice : Notice

pub record Report : Type 0 where
  pub recovered_jobs : ℕ
  pub enqueued : ℕ
  pub claimed : List WorkflowJob
  pub tallies : List Tally
  pub alerts : List Alert
  pub notices : List Notice

abbrev pub is_empty : List Alert → Bool
is_empty [] = true
is_empty (a ∷ as') = false

-- the readings of the clock by one pass: by the recovery, by the loop over the unread sessions, two by
-- the claim, and by the SLA check
pub record Readings : Type 0 where
  pub recover_at : ℕ
  pub unread_at : ℕ → ℕ
  pub claim_at : ℕ
  pub lease_at : ℕ
  pub end_at : ℕ

unfoldable pub run_once :
    Floats
    → Env
    → Readings
    → List Session
    → Bool
    → WorkflowWorker
    → WorkflowStore
    → WorkflowWorker × WorkflowStore × Report
run_once f env c unread dry_run w s =
    let (s1, recovered) = recover_expired_jobs c.recover_at s in
    let (s2, enqueued) = enqueue_unread env.sha1 c.unread_at 0 unread s1 in
    let (s3, claimed) = claim_jobs c.claim_at c.lease_at w.claim_limit w.lease_seconds s2 in
    let (s4, tallies) = handle_jobs w env unread dry_run claimed s3 in
    let (s5, alerts) = evaluate_sla_alerts f c.end_at c.end_at w.sla_config s4 in
    let recovering = is_empty alerts && (w.had_active_alert && w.notify_recovery) in
    (
      record w {
        had_active_alert =
            if is_empty alerts then w.had_active_alert && not w.notify_recovery else true;
      },
      s5,
      record {
        recovered_jobs = recovered;
        enqueued = enqueued;
        claimed = claimed;
        tallies = tallies;
        alerts = alerts;
        notices =
            if not (is_empty alerts) && w.notify_on_alert
            then alert_notice ∷ []
            else if recovering
            then recovery_notice ∷ []
            else [];
      },
    )
