-- ===== src/Workflow/Tests/Queue.antt =====
-- The job queue and the worker.
use realxianyu.Base.{
  ◌+◌, inr, text_take, ◌≤◌, ◌≢◌, ◌≡◌, refl, true, false, not, ◌&&◌, ◌==◌, string_eq, ◌*◌, ◌/◌, none,
  some, [], ◌∷◌, map, arith,
}
use realxianyu.Base.Lists.{All, length}
use realxianyu.Base.Table.{find_where, exists_where}
use realxianyu.Workflow.Tests.{sha1, hello, held_job, queue, queue-JobsValid}
use realxianyu.Workflow.Rows.{pending, WorkflowStore}
use realxianyu.Workflow.Outcomes.{Detail, returned, not_sent, Env, WorkflowWorker}
use realxianyu.Workflow.Jobs.{
  WorkflowJob, handed, claim_jobs, recover_expired_jobs, complete_job, fail_job, enqueue_job,
  is_held, reply_key,
}
use realxianyu.Workflow.Jobs.Invariant.{JobsValid}
use realxianyu.Workflow.Jobs.Attempts.{IsBounded}
use realxianyu.Workflow.Jobs.Claims.{selected, claim_jobs-selected}
use realxianyu.Workflow.Jobs.Exclusion.{claim_jobs-exclusive}
use realxianyu.Workflow.Jobs.Leases.{stale_lease_refused}
use realxianyu.Workflow.Jobs.Failures.{has_id, fail_job_held, settle_refused}
use realxianyu.Workflow.Jobs.Dedupe.{is_open, enqueue_job-accepts}
use realxianyu.Workflow.Steps.{Reach, here, next, claim, recover, Reach-JobsValid, Reach-IsBounded}
use realxianyu.Workflow.Sla.{Floats, default_sla_config}
use realxianyu.Workflow.Worker.{Readings, run_once}
use realxianyu.Workflow.Worker.Released.{Released}
use realxianyu.Workflow.Worker.Settles.{run_once-Released}

claims_one : map WorkflowJob.id (claim_jobs 10 10 8 60 queue).1 ≡ 1 ∷ []
unfolding claim_jobs
claims_one = refl

recovers_one : (recover_expired_jobs 40 queue).1 ≡ 1
unfolding recover_expired_jobs
recovers_one = refl

claim_jobs-selected_example :
    ((claim_jobs 10 10 8 60 queue).1 ≡ map (handed 70) (selected 10 8 queue))
    × (length (claim_jobs 10 10 8 60 queue).1 ≤ 8)
claim_jobs-selected_example = claim_jobs-selected 10 10 8 60 queue queue-JobsValid

claim_jobs-exclusive_example :
    let (s', first) = claim_jobs 10 10 8 60 queue in
    All (λ w. All (λ w'. WorkflowJob.id w ≢ w'.id) (claim_jobs 95 95 8 60 s').1) first
claim_jobs-exclusive_example = claim_jobs-exclusive 10 10 8 60 95 95 8 60 queue queue-JobsValid

stale_lease_refused_example :
    let s' = (claim_jobs 40 40 8 60 (recover_expired_jobs 40 queue).0).0 in
    (complete_job 41 2 (some 30) s' ≡ (s', false))
    × (fail_job 41 41 2 "late" 3 2 (some 30) s' ≡ (s', false))
stale_lease_refused_example =
    stale_lease_refused 40 40 8 60 30 2 41 41 3 2 "late" queue (omega arith) (omega arith)
      queue-JobsValid

held : find_where (is_held 2 (some 30)) queue.jobs ≡ some held_job
unfolding find_where
held = refl

fail_job_held_example :
    let (s', failed) = fail_job 20 20 2 "oops" 3 2 (some 30) queue in
    (failed ≡ true)
    × (find_where (has_id 2) s'.jobs
        ≡ some (record held_job {
          status = pending;
          attempts = 2;
          next_run_at = 24;
          lease_until = none;
          last_error = some (text_take 500 "oops");
          updated_at = 20;
        }))
fail_job_held_example =
    fail_job_held 20 20 2 "oops" 3 2 (some 30) queue {row = held_job} queue-JobsValid held

-- job 2 runs under the lease 30, and 29 is stale
settle_refused_example :
    (fail_job 20 20 2 "oops" 3 2 (some 29) queue ≡ (queue, false))
    × (complete_job 20 2 (some 29) queue ≡ (queue, false))
unfolding find_where
settle_refused_example =
    settle_refused 20 20 2 "oops" 3 2 29 queue queue-JobsValid
      (inr (λ e. absurd (ground (arith, e))))

enqueue_job-accepts_example : (enqueue_job sha1 10 hello "reply" queue).1 ≡ (
    not (hello.session_id == "")
    && not (exists_where (is_open (reply_key sha1 hello "reply")) queue.jobs))
enqueue_job-accepts_example = enqueue_job-accepts sha1 10 hello "reply" queue

-- a worker claims after another has recovered
abbrev after_claim : WorkflowStore
after_claim = (claim_jobs 40 40 8 60 (recover_expired_jobs 40 queue).0).0

recovered_and_claimed : Reach 3 queue after_claim
recovered_and_claimed =
    next (next here (recover 40 queue)) (claim 40 40 8 60 (recover_expired_jobs 40 queue).0)

Reach-JobsValid_example : JobsValid after_claim
Reach-JobsValid_example =
    Reach-JobsValid {m = 3} {s = queue} {t = after_claim} queue-JobsValid recovered_and_claimed

Reach-IsBounded_example : All (IsBounded 3) after_claim.jobs
Reach-IsBounded_example =
    Reach-IsBounded {m = 3} {s = queue} {t = after_claim} (omega arith) (ground arith)
      recovered_and_claimed

abbrev nothing_sent : Detail
nothing_sent = record {
  sent = false;
  skipped = false;
  reason = "offline";
  rule_matched = "";
  is_quote = false;
  quote_need_info = false;
  quote_success = false;
  quote_fallback = false;
  last_message = "hi";
  reply = "";
  peer_name = "ann";
}

abbrev offline : Env
offline = record {
  sha1 = sha1;
  dumps = λ m. "{}";
  process_session = λ job. returned nothing_sent;
  takeovers = λ job. [];
  reply_to_session = λ job. not_sent;
  latency_ms = λ job. 5;
  now = λ job. 12;
  clock = λ job. 12;
}

abbrev worker : WorkflowWorker
worker = record {
  claim_limit = 8;
  lease_seconds = 60;
  max_attempts = 3;
  backoff_seconds = 2;
  sla_config = default_sla_config;
  notify_on_alert = true;
  notify_recovery = true;
  quote_nudge_enabled = false;
  quote_nudge_delay_seconds = 1800;
  had_active_alert = false;
}

abbrev floats : Floats
floats = record { half = λ n. n / 2; ninety_five = λ n. 19 * n / 20; rate = λ a b. 10000 * a / b }

abbrev readings : Readings
readings = record {
  recover_at = 10;
  unread_at = λ k. 10 + k;
  claim_at = 12;
  lease_at = 12;
  end_at = 14;
}

run_once-Released_example :
    let (_, s', report) = run_once floats offline readings (hello ∷ []) false worker queue in
    All (λ w. Released w s') report.claimed
run_once-Released_example =
    run_once-Released floats offline readings (hello ∷ []) false worker queue
