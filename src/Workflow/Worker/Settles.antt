-- ===== src/Workflow/Worker/Settles.antt =====
-- A pass of the worker leaves none of the jobs that it claimed running under its lease.
use realxianyu.Base.{
  ℕ, ◌+◌, ◌≡◌, ◌∙◌, refl, Bool, false, not, ◌&&◌, ◌||◌, Option, none, some, List, [], ◌∷◌, String,
  arith, ◌==◌, nat_eq, string_eq, if◌then◌else◌, if_both, text_append, Bool-cases, inl, inr, leb,
}
use realxianyu.Base.Lists.{All, All-append, All-mono}
use realxianyu.Base.Table.{delete_where, find_where, exists_where}
use realxianyu.Base.Table.Laws.{All-delete_where}
use realxianyu.Workflow.States.{WorkflowState, followed, quoted, replied}
use realxianyu.Workflow.Rows.{SlaMessage, Session, Job, WorkflowStore}
use realxianyu.Workflow.Store.{set_manual_takeover, transition_state}
use realxianyu.Workflow.Jobs.{
  WorkflowJob, recover_expired_jobs, claim_jobs, is_held, is_settled, is_pending, has_dedupe_key,
  new_job, payload_or, session_only, delayed_key, insert_or_ignore, enqueue_delayed_job, bury,
  retry, backoff, fail_row, fail_job,
}
use realxianyu.Workflow.Sla.{
  Floats, SlaConfig, check_alert, raise_alert_once, evaluate_sla_alerts, record_sla_event,
}
use realxianyu.Workflow.Outcomes.{Detail, Outcome, returned, raised, Env, WorkflowWorker, Tally}
use realxianyu.Workflow.Worker.{
  handle_quote_nudge, align_manual, apply_takeovers, after_reply, give_up, settle, metadata_of,
  handle_in_mode, handle_job, handle_jobs, enqueue_unread, Readings, run_once,
}
use realxianyu.Workflow.Worker.Released.{
  Released, released_update, Released-finish_other, Released-handle_in_mode,
}

-- The calls that only touch sessions leave the jobs alone.
jobs-transition_state :
    (now : ℕ) (sid : String) (to_state : WorkflowState) (reason metadata : String)
    (s : WorkflowStore)
    → (transition_state now sid to_state reason metadata s).0.jobs ≡ s.jobs
unfolding transition_state
jobs-transition_state now sid to_state reason metadata s = ground arith

jobs-handle_quote_nudge :
    (env : Env) (unread : List Session) (dry_run : Bool) (v : WorkflowJob) (s : WorkflowStore)
    → (handle_quote_nudge env unread dry_run v s).jobs ≡ s.jobs
unfolding handle_quote_nudge
jobs-handle_quote_nudge env unread dry_run v s =
    ground (arith, jobs-transition_state (env.now v) v.session_id followed "quote_nudge" "{}" s)

jobs-align_manual :
    (now clock : ℕ) (sid : String) (wf mm : Bool) (s : WorkflowStore)
    → (align_manual now clock sid wf mm s).jobs ≡ s.jobs
unfolding align_manual set_manual_takeover
jobs-align_manual now clock sid wf mm s = ground arith

jobs-apply_takeovers :
    (now clock : ℕ) (calls : List (String × Bool)) (s : WorkflowStore)
    → (apply_takeovers now clock calls s).jobs ≡ s.jobs
unfolding apply_takeovers set_manual_takeover
jobs-apply_takeovers now clock [] s = refl
jobs-apply_takeovers now clock (call ∷ calls) s =
    jobs-apply_takeovers now clock calls (set_manual_takeover now clock call.0 call.1 s).0

module _ (w : WorkflowJob) where
  keep_enqueue_delayed_job :
      (now later : ℕ) (sid stage : String) (delay : ℕ) (payload : Option Session)
      (s : WorkflowStore)
      → Released w s
      → Released w (enqueue_delayed_job now later sid stage delay payload s).0
  unfolding enqueue_delayed_job insert_or_ignore
  keep_enqueue_delayed_job now later sid stage delay payload s h =
      let key = delayed_key sid stage in
      let gone =
        λ (j : Job). has_dedupe_key key j && (is_settled j.status || is_pending j.status) in
      let kept = All-delete_where (λ j. is_held w.id w.lease_until j ≡ false) gone s.jobs h in
      let job = new_job s.next_job_id key sid stage (payload_or sid payload) (later + delay) now in
      if_both (λ (r : WorkflowStore × Bool). Released w r.0) (sid == "") h
        (if_both (λ (r : WorkflowStore × Bool). Released w r.0)
          (exists_where (has_dedupe_key key) (delete_where gone s.jobs)) kept
          (All-append (λ j. is_held w.id w.lease_until j ≡ false) (delete_where gone s.jobs)
            (job ∷ []) kept (ground arith, tt)))

  keep_after_reply :
      (k : WorkflowWorker) (env : Env) (v : WorkflowJob) (d : Detail) (s : WorkflowStore)
      → Released w s
      → Released w (after_reply k env v d s)
  unfolding after_reply record_sla_event
  keep_after_reply k env v d s h =
      let next_state = if d.is_quote && d.quote_success then quoted else replied in
      let same =
        jobs-transition_state (env.now v) v.session_id next_state "workflow_worker"
          (env.dumps (metadata_of d)) s in
      let moved =
        (transition_state (env.now v) v.session_id next_state "workflow_worker"
          (env.dumps (metadata_of d)) s).0 in
      let h' : Released w moved = rw same h in
      if_both (λ (r : WorkflowStore). Released w r)
        (d.is_quote && (d.quote_success && k.quote_nudge_enabled))
        (keep_enqueue_delayed_job (env.now v) (env.now v) v.session_id "quote_nudge"
          k.quote_nudge_delay_seconds (some (session_only v.session_id)) moved h')
        h'

  keep_fail_row :
      (now later id : ℕ) (error : String) (m base : ℕ) (expected : Option ℕ) (s : WorkflowStore)
      (row : Option Job)
      → Released w s
      → Released w (fail_row now later id error m base expected s row).0
  unfolding fail_row
  keep_fail_row now later id error m base expected s none h = h
  keep_fail_row now later id error m base expected s (some row) h =
      elim (Bool-cases (leb m (row.attempts + 1))) [
        | inl e ↦ rw e (
            released_update w (is_held id expected) (bury now (row.attempts + 1) error) s.jobs
              (λ j. refl) h)
        | inr e ↦ rw e (
            released_update w (is_held id expected)
              (retry now (row.attempts + 1) (later + backoff base (row.attempts + 1)) error) s.jobs
              (λ j. refl) h)
      ]

  keep_give_up :
      (k : WorkflowWorker) (now : ℕ) (v : WorkflowJob) (error : String) (s : WorkflowStore)
      → Released w s
      → Released w (give_up k now v error s).0
  unfolding give_up fail_job
  keep_give_up k now v error s h =
      keep_fail_row now now v.id error k.max_attempts k.backoff_seconds v.lease_until s
        (find_where (is_held v.id v.lease_until) s.jobs) h

  keep_settle :
      (k : WorkflowWorker) (env : Env) (v : WorkflowJob) (outcome : Outcome) (s : WorkflowStore)
      → Released w s
      → Released w (settle k env v outcome s).0
  unfolding settle
  keep_settle k env v (raised error) s h = keep_give_up k (env.now v) v error s h
  keep_settle k env v (returned d) s h =
      if_both (λ (r : WorkflowStore × Tally). Released w r.0) (not d.sent && not d.skipped)
        (keep_give_up k (env.now v) v (text_append "reply_not_sent:" d.reason) s h)
        (if_both (λ (r : WorkflowStore × Tally). Released w r.0) d.skipped
          (Released-finish_other w (env.now v) v s h)
          (Released-finish_other w (env.now v) v (after_reply k env v d s)
            (keep_after_reply k env v d s h)))

  keep_handle_in_mode :
      (k : WorkflowWorker) (env : Env) (unread : List Session) (dry_run : Bool) (v : WorkflowJob)
      (wf mm : Bool) (s : WorkflowStore)
      → Released w s
      → Released w (handle_in_mode k env unread dry_run v wf mm s).0
  unfolding handle_in_mode
  keep_handle_in_mode k env unread dry_run v wf mm s h =
      let aligned = align_manual (env.now v) (env.clock v) v.session_id wf mm s in
      let nudged = handle_quote_nudge env unread dry_run v s in
      let taken = apply_takeovers (env.now v) (env.clock v) (env.takeovers v) s in
      let ha : Released w aligned = rw jobs-align_manual h in
      let hn : Released w nudged = rw jobs-handle_quote_nudge h in
      let ht : Released w taken = rw jobs-apply_takeovers h in
      if_both (λ (r : WorkflowStore × Tally). Released w r.0) (wf || mm)
        (Released-finish_other w (env.now v) v aligned ha)
        (if_both (λ (r : WorkflowStore × Tally). Released w r.0) (v.stage == "quote_nudge")
          (Released-finish_other w (env.now v) v nudged hn)
          (keep_settle k env v (env.process_session v) taken ht))

  keep_handle_jobs :
      (k : WorkflowWorker) (env : Env) (unread : List Session) (dry_run : Bool)
      (jobs : List WorkflowJob) (s : WorkflowStore)
      → Released w s
      → Released w (handle_jobs k env unread dry_run jobs s).0
  unfolding handle_jobs handle_job
  keep_handle_jobs k env unread dry_run [] s h = h
  keep_handle_jobs k env unread dry_run (v ∷ jobs) s h =
      keep_handle_jobs k env unread dry_run jobs (handle_job k env unread dry_run v s).0
        (keep_handle_in_mode k env unread dry_run v _ _ _ h)

-- Whatever the message service answers, however the replies fail, and whichever sessions are taken
-- over meanwhile: when the loop over the claimed jobs ends, no job of it runs under its lease.
pub handle_jobs-Released :
    (k : WorkflowWorker) (env : Env) (unread : List Session) (dry_run : Bool)
    (jobs : List WorkflowJob) (s : WorkflowStore)
    → All (λ w. Released w (handle_jobs k env unread dry_run jobs s).0) jobs
unfolding handle_jobs handle_job
handle_jobs-Released k env unread dry_run [] s = tt
handle_jobs-Released k env unread dry_run (w ∷ jobs) s =
    let s' = (handle_job k env unread dry_run w s).0 in
    (
      keep_handle_jobs w k env unread dry_run jobs s'
          (Released-handle_in_mode w k env unread dry_run _ _ _),
      handle_jobs-Released k env unread dry_run jobs s',
    )

jobs-check_alert :
    (breached : Bool) (now later : ℕ) (alert_type title : String) (message : SlaMessage)
    (s : WorkflowStore)
    → (check_alert breached now later alert_type title message s).0.jobs ≡ s.jobs
unfolding check_alert raise_alert_once
jobs-check_alert breached now later alert_type title message s = ground arith

jobs-evaluate_sla_alerts :
    (f : Floats) (now later : ℕ) (cfg : SlaConfig) (s : WorkflowStore)
    → (evaluate_sla_alerts f now later cfg s).0.jobs ≡ s.jobs
unfolding evaluate_sla_alerts
jobs-evaluate_sla_alerts f now later cfg s =
    jobs-check_alert _ _ _ _ _ _ _ ∙ jobs-check_alert _ _ _ _ _ _ _

-- When `run_once` ends, none of the jobs that it claimed still runs under the lease it was claimed
-- with, whatever the message service answered.
pub run_once-Released :
    (f : Floats) (env : Env) (c : Readings) (unread : List Session) (dry_run : Bool)
    (k : WorkflowWorker) (s : WorkflowStore)
    → let (_, s', report) = run_once f env c unread dry_run k s in
      All (λ w. Released w s') report.claimed
unfolding run_once
run_once-Released f env c unread dry_run k s =
    let recovered = (recover_expired_jobs c.recover_at s).0 in
    let queued = (enqueue_unread env.sha1 c.unread_at 0 unread recovered).0 in
    let claims = claim_jobs c.claim_at c.lease_at k.claim_limit k.lease_seconds queued in
    let handled = (handle_jobs k env unread dry_run claims.1 claims.0).0 in
    let same = jobs-evaluate_sla_alerts f c.end_at c.end_at k.sla_config handled in
    All-mono (λ w. Released w handled)
      (λ w. Released w (evaluate_sla_alerts f c.end_at c.end_at k.sla_config handled).0) claims.1
      (λ w h. rw same h) (handle_jobs-Released k env unread dry_run claims.1 claims.0)
