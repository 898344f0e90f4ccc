-- ===== src/Workflow/Jobs/Failures.antt =====
-- What `fail_job` and `complete_job` do to the job that they are given.
use realxianyu.Base.{
  text_take, ℕ, ◌+◌, ◌*◌, ◌^◌, ◌-◌, ◌<◌, ◌≡◌, refl, Bool, true, false, ◌&&◌, Option, none, some,
  List, [], ◌∷◌, String, map, arith, ◌==◌, nat_eq, if◌then◌else◌, leb, Bool-cases, Option-cases,
  inl, inr, ◌≢◌, ◌⊎◌, ap, subst, nat_beq_iff,
}
use realxianyu.Base.Lists.{All-unmapped, Pairs}
use realxianyu.Base.Table.{update_where, find_where}
use realxianyu.Base.Table.Laws.{
  not_found, update_where_nothing, count_where_zero, find_where-update_where, find_where_holds,
  All-find_where, count_where_pos,
}
use realxianyu.Workflow.Rows.{JobStatus, pending, running, done, dead, Job, WorkflowStore}
use realxianyu.Workflow.Jobs.{
  is_running, lease_fits, is_held, complete_job, bury, retry, fail_row, fail_job,
}
use realxianyu.Workflow.Jobs.Invariant.{job_id, JobsValid}

abbrev pub has_id : ℕ → Job → Bool
has_id i j = j.id == i

-- ids are unique, so the job that is found under a further condition is the job with the id
find_where_by_id :
    (i : ℕ) (q : Job → Bool) (jobs : List Job) {row : Job}
    → Pairs ◌<◌ (map job_id jobs)
    → find_where (λ j. has_id i j && q j) jobs ≡ some row
    → find_where (has_id i) jobs ≡ some row
unfolding find_where
find_where_by_id i q [] d e = cc
find_where_by_id i q (x ∷ jobs) {row} d e = elim (Bool-cases (has_id i x)) [
  | inr other ↦ rw other (find_where_by_id i q jobs d.1 (ground arith))
  | inl same ↦ elim (Bool-cases (q x)) [
    | inl here ↦ ground arith
    | inr there ↦
        let e' : find_where (λ j. has_id i j && q j) jobs ≡ some row = ground arith in
        let held : (has_id i row && q row) ≡ true =
          find_where_holds (λ j. has_id i j && q j) jobs e' in
        let above : x.id < row.id =
          All-find_where (λ j. x.id < j.id) (λ j. has_id i j && q j) jobs
            (All-unmapped job_id (λ k. x.id < k) jobs d.0) e' in
        absurd (ground arith)
  ]
]

-- the row of a job that is held, after an UPDATE of the held job
find_where-update_held :
    (id : ℕ) (expected : Option ℕ) (f : Job → Job) (s : WorkflowStore) {row : Job}
    → JobsValid s
    → ((j : Job) → (f j).id ≡ j.id)
    → find_where (is_held id expected) s.jobs ≡ some row
    → find_where (has_id id) (update_where (is_held id expected) f s.jobs) ≡ some (f row)
find_where-update_held id expected f s {row} v keeps e = rw (
  find_where-update_where (is_held id expected) (has_id id) f s.jobs (λ x. rw (keeps x)),
  find_where_by_id id (λ j. is_running j.status && lease_fits expected j.lease_until) s.jobs
      v.ids_ascend e,
  find_where_holds (is_held id expected) s.jobs e,
)

-- Failing a job that is held under the lease succeeds, counts one more attempt and ends the lease. If
-- the attempts reach the limit the job is dead; otherwise it is pending again and waits at least
-- base * 2 ^ (attempts before the failure) seconds from the second reading of the clock.
pub fail_job_held :
    (now later id : ℕ) (error : String) (max_attempts base : ℕ) (expected : Option ℕ)
    (s : WorkflowStore) {row : Job}
    → JobsValid s
    → find_where (is_held id expected) s.jobs ≡ some row
    → let (s', failed) = fail_job now later id error max_attempts base expected s in
      (failed ≡ true)
      × (find_where (has_id id) s'.jobs
          ≡ some (
              if leb max_attempts (row.attempts + 1)
              then record row {
                status = dead;
                attempts = row.attempts + 1;
                lease_until = none;
                last_error = some (text_take 500 error);
                updated_at = now;
              }
              else record row {
                status = pending;
                attempts = row.attempts + 1;
                next_run_at = later + base * 2 ^ row.attempts;
                lease_until = none;
                last_error = some (text_take 500 error);
                updated_at = now;
              }))
unfolding fail_job fail_row
fail_job_held now later id error max_attempts base expected s {row} v e =
    let same : row.attempts + 1 - 1 ≡ row.attempts = omega arith in
    let counted = count_where_pos (is_held id expected) s.jobs e in
    elim (Bool-cases (leb max_attempts (row.attempts + 1))) [
      | inl last ↦
          rw (e, last)
            (
              ground (arith, counted),
              find_where-update_held id expected (bury now (row.attempts + 1) error) s v (λ j. refl)
                  e,
            )
      | inr more ↦
          rw (e, more, same)
            (
              ground (arith, counted),
              find_where-update_held id expected
                  (retry now (row.attempts + 1) (later + base * 2 ^ row.attempts) error) s v
                  (λ j. refl) e,
            )
    ]

settle_not_held :
    (now later id : ℕ) (error : String) (max_attempts base : ℕ) (expected : Option ℕ)
    (s : WorkflowStore)
    → find_where (is_held id expected) s.jobs ≡ none
    → (fail_job now later id error max_attempts base expected s ≡ (s, false))
      × (complete_job now id expected s ≡ (s, false))
unfolding fail_job fail_row complete_job
settle_not_held now later id error max_attempts base expected s e =
    let none_held = not_found (is_held id expected) s.jobs e in
    (
      rw e,
      simp (
        update_where_nothing (is_held id expected) _ s.jobs none_held,
        count_where_zero (is_held id expected) s.jobs none_held,
      ),
    )

-- the row of a job gives no right to a worker with the lease `t`: there is none, it does not run, or
-- it runs under another lease
abbrev pub NoHold : ℕ → Option Job → Type 0
NoHold t none = Unit
NoHold t (some row) = (row.status ≢ running) ⊎ (row.lease_until ≢ some t)

is_running-running : (st : JobStatus) → is_running st ≡ true → st ≡ running
is_running-running pending h = cc
is_running-running running h = refl
is_running-running done h = cc
is_running-running dead h = cc

lease_fits-some : (t : ℕ) (held : Option ℕ) → lease_fits (some t) held ≡ true → held ≡ some t
lease_fits-some t none h = cc
lease_fits-some t (some u) h = ap some ((nat_beq_iff u t).0 h)

held-not-NoHold : (id t : ℕ) (row : Job) → is_held id (some t) row ≡ true → NoHold t (some row) → ⊥
held-not-NoHold id t row h (inl idle) = idle (is_running-running row.status (ground arith))
held-not-NoHold id t row h (inr other) = other (lease_fits-some t row.lease_until (ground arith))

-- A worker that fails or completes a job under a lease is refused, and nothing changes, where no job
-- has the id, the job does not run, or it runs under another lease: the table is valid.
pub settle_refused :
    (now later id : ℕ) (error : String) (max_attempts base t : ℕ) (s : WorkflowStore)
    → JobsValid s
    → NoHold t (find_where (has_id id) s.jobs)
    → (fail_job now later id error max_attempts base (some t) s ≡ (s, false))
      × (complete_job now id (some t) s ≡ (s, false))
settle_refused now later id error max_attempts base t s v refused =
    elim (Option-cases (find_where (is_held id (some t)) s.jobs)) [
      | inl e ↦ settle_not_held now later id error max_attempts base (some t) s e
      | inr (row, e) ↦
          let found =
            find_where_by_id id (λ j. is_running j.status && lease_fits (some t) j.lease_until)
              s.jobs v.ids_ascend e in
          absurd (
            held-not-NoHold id t row (find_where_holds (is_held id (some t)) s.jobs e)
              (subst (NoHold t) found refused))
    ]

-- Completing a job that is held under the lease succeeds and leaves it done, with no lease.
pub complete_job_held :
    (now id : ℕ) (expected : Option ℕ) (s : WorkflowStore) {row : Job}
    → JobsValid s
    → find_where (is_held id expected) s.jobs ≡ some row
    → let (s', completed) = complete_job now id expected s in
      (completed ≡ true)
      × (find_where (has_id id) s'.jobs
          ≡ some (record row { status = done; lease_until = none; updated_at = now }))
unfolding complete_job
complete_job_held now id expected s {row} v e = (
  ground (arith, count_where_pos (is_held id expected) s.jobs e),
  find_where-update_held id expected
      (λ j. record j { status = done; lease_until = none; updated_at = now }) s v (λ j. refl) e,
)
