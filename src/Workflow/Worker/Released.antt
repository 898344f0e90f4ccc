-- ===== src/Workflow/Worker/Released.antt =====
-- The worker releases a job of src/modules/messages/workflow.py that it settles: the job no longer
-- runs under the lease that the worker holds.
use realxianyu.Base.{
  ℕ, ◌+◌, ◌≡◌, refl, Bool, false, not, ◌&&◌, ◌||◌, none, some, List, String, arith, ◌==◌, nat_eq,
  string_eq, if_both, text_append, Bool-cases, Option-cases, inl, inr, leb,
}
use realxianyu.Base.Lists.{All, All-everywhere}
use realxianyu.Base.Table.{update_where, find_where}
use realxianyu.Base.Table.Laws.{All-update_where, not_found}
use realxianyu.Workflow.Rows.{Session, done, Job, WorkflowStore}
use realxianyu.Workflow.Jobs.{
  WorkflowJob, is_held, is_running, complete_job, bury, retry, backoff, fail_row, fail_job,
}
use realxianyu.Workflow.Outcomes.{Outcome, returned, raised, Env, WorkflowWorker, Tally}
use realxianyu.Workflow.Worker.{
  handle_quote_nudge, align_manual, apply_takeovers, after_reply, finish, give_up, settle,
  handle_in_mode,
}

-- no job runs under the lease of a claimed job
abbrev pub Released : WorkflowJob → WorkflowStore → Type 0
Released w s = All (λ j. is_held w.id w.lease_until j ≡ false) s.jobs

module _ (w : WorkflowJob) where
  pub released_update :
      (p : Job → Bool) (f : Job → Job) (jobs : List Job)
      → ((j : Job) → is_running (f j).status ≡ false)
      → All (λ j. is_held w.id w.lease_until j ≡ false) jobs
      → All (λ j. is_held w.id w.lease_until j ≡ false) (update_where p f jobs)
  released_update p f jobs stopped h =
      All-update_where (λ j. is_held w.id w.lease_until j ≡ false)
        (λ j. is_held w.id w.lease_until j ≡ false) p f jobs (λ j _ _. ground (arith, stopped j))
        (λ j k _. k) h

  -- an UPDATE of the held jobs that stops them releases the job
  pub released_by_update :
      (f : Job → Job) (jobs : List Job)
      → ((j : Job) → is_running (f j).status ≡ false)
      → All
          (λ j. is_held w.id w.lease_until j ≡ false)
          (update_where (is_held w.id w.lease_until) f jobs)
  released_by_update f jobs stopped =
      All-update_where (λ j. Unit {0}) (λ j. is_held w.id w.lease_until j ≡ false)
        (is_held w.id w.lease_until) f jobs (λ j _ _. ground (arith, stopped j)) (λ j _ e. e)
        (All-everywhere (λ j. Unit {0}) jobs (λ j. tt))

  pub Released-finish : (now : ℕ) (s : WorkflowStore) → Released w (finish now w s).0
  unfolding finish complete_job
  Released-finish now s =
      released_by_update (λ j. record j { status = done; lease_until = none; updated_at = now })
        s.jobs (λ j. refl)

  pub Released-finish_other :
      (now : ℕ) (v : WorkflowJob) (s : WorkflowStore) → Released w s → Released w (finish now v s).0
  unfolding finish complete_job
  Released-finish_other now v s h =
      released_update (is_held v.id v.lease_until)
        (λ j. record j { status = done; lease_until = none; updated_at = now }) s.jobs (λ j. refl) h

  pub Released-fail_row :
      (now later id : ℕ) (error : String) (m base : ℕ) (s : WorkflowStore) (row : Job)
      → Released w (fail_row now later w.id error m base w.lease_until s (some row)).0
  unfolding fail_row
  Released-fail_row now later id error m base s row = elim (Bool-cases (leb m (row.attempts + 1))) [
    | inl e ↦ rw e (released_by_update (bury now (row.attempts + 1) error) s.jobs (λ j. refl))
    | inr e ↦ rw e (
        released_by_update
          (retry now (row.attempts + 1) (later + backoff base (row.attempts + 1)) error) s.jobs
          (λ j. refl))
  ]

  pub Released-give_up :
      (k : WorkflowWorker) (now : ℕ) (error : String) (s : WorkflowStore)
      → Released w (give_up k now w error s).0
  unfolding give_up fail_job
  Released-give_up k now error s =
      elim (Option-cases (find_where (is_held w.id w.lease_until) s.jobs)) [
        | inl e ↦ rw e (unfold fail_row in not_found (is_held w.id w.lease_until) s.jobs e)
        | inr (row, e) ↦
            rw e (Released-fail_row now now w.id error k.max_attempts k.backoff_seconds s row)
      ]

  -- The job whose handling has ended is released, however it ended.
  pub Released-settle :
      (k : WorkflowWorker) (env : Env) (outcome : Outcome) (s : WorkflowStore)
      → Released w (settle k env w outcome s).0
  unfolding settle
  Released-settle k env (raised error) s = Released-give_up k (env.now w) error s
  Released-settle k env (returned d) s =
      if_both (λ (r : WorkflowStore × Tally). Released w r.0) (not d.sent && not d.skipped)
        (Released-give_up k (env.now w) (text_append "reply_not_sent:" d.reason) s)
        (if_both (λ (r : WorkflowStore × Tally). Released w r.0) d.skipped
          (Released-finish (env.now w) s) (Released-finish (env.now w) (after_reply k env w d s)))

  pub Released-handle_in_mode :
      (k : WorkflowWorker) (env : Env) (unread : List Session) (dry_run wf mm : Bool)
      (s : WorkflowStore)
      → Released w (handle_in_mode k env unread dry_run w wf mm s).0
  unfolding handle_in_mode
  Released-handle_in_mode k env unread dry_run wf mm s =
      if_both (λ (r : WorkflowStore × Tally). Released w r.0) (wf || mm)
        (Released-finish (env.now w) (align_manual (env.now w) (env.clock w) w.session_id wf mm s))
        (if_both (λ (r : WorkflowStore × Tally). Released w r.0) (w.stage == "quote_nudge")
          (Released-finish (env.now w) (handle_quote_nudge env unread dry_run w s))
          (Released-settle k env (env.process_session w)
            (apply_takeovers (env.now w) (env.clock w) (env.takeovers w) s)))
