-- ===== src/Workflow/Log.antt =====
-- The transition log under every interleaving of the methods of `WorkflowStore`: an entry that is
-- marked as success is a legal move of the state machine.
use realxianyu.Base.{
  ℕ, ◌≡◌, refl, ◌⊎◌, inl, inr, true, Option, none, some, [], ◌∷◌, String, arith, string_eq,
  Bool-cases,
}
use realxianyu.Base.Lists.{All, All-append}
use realxianyu.Base.Table.{find_where}
use realxianyu.Workflow.States.{WorkflowState, value, can_transition}
use realxianyu.Workflow.Rows.{
  TransitionStatus, success, rejected, forced, Transition, Job, Session, WorkflowStore,
}
use realxianyu.Workflow.Store.{ensure_session, set_manual_takeover, transition_state, force_state}
use realxianyu.Workflow.Store.Transitions.{state_of}
use realxianyu.Workflow.Jobs.{
  insert_or_ignore, enqueue_job, enqueue_delayed_job, recover_expired_jobs, claim_jobs,
  complete_job, is_held, fail_row, fail_job, received,
}
use realxianyu.Workflow.Sla.{record_sla_event, raise_alert_once}
use realxianyu.Workflow.Steps.{
  Step, Reach, ensure, takeover, transition, force, enqueue, delay, recover, claim, complete, fail,
  sla, alert, here, next,
}

-- The arrival of a message is logged with the text "none" for a state; any other success is a move
-- that the state machine allows.
abbrev pub LegalAs : TransitionStatus → String → WorkflowState → Type 0
LegalAs success from_state to_state =
    (from_state ≡ "none")
    ⊎ ((f : WorkflowState) × (value f ≡ from_state) × (can_transition f to_state ≡ true))
LegalAs rejected from_state to_state = Unit
LegalAs forced from_state to_state = Unit

abbrev pub IsLegal : Transition → Type 0
IsLegal e = LegalAs e.status e.from_state e.to_state

log_transition :
    (now : ℕ) (sid : String) (to_state : WorkflowState) (reason metadata : String)
    (s : WorkflowStore)
    → All IsLegal s.transitions
    → All IsLegal (transition_state now sid to_state reason metadata s).0.transitions
unfolding transition_state
log_transition now sid to_state reason metadata s h =
    elim (Bool-cases (can_transition (state_of sid s) to_state)) [
      | inl allowed ↦
          rw allowed
            (All-append IsLegal s.transitions _ h (inr (state_of sid s, refl, allowed), tt))
      | inr refused ↦ rw refused (All-append IsLegal s.transitions _ h (tt, tt))
    ]

log_enqueue :
    (sha1 : String → String) (now : ℕ) (session : Session) (stage : String) (s : WorkflowStore)
    → All IsLegal s.transitions
    → All IsLegal (enqueue_job sha1 now session stage s).0.transitions
unfolding enqueue_job insert_or_ignore
log_enqueue sha1 now session stage s h = ground (
  arith,
  All-append IsLegal s.transitions (received session.session_id now ∷ []) h (inl refl, tt),
)

log_fail :
    (now later id : ℕ) (error : String) (m base : ℕ) (expected : Option ℕ) (s : WorkflowStore)
    (row : Option Job)
    → (fail_row now later id error m base expected s row).0.transitions ≡ s.transitions
unfolding fail_row
log_fail now later id error m base expected s none = refl
log_fail now later id error m base expected s (some row) = refl

-- A step keeps every entry of the log legal.
pub Step-IsLegal :
    {m : ℕ} {s t : WorkflowStore}
    → Step m s t
    → All IsLegal s.transitions
    → All IsLegal t.transitions
unfolding ensure_session set_manual_takeover force_state enqueue_delayed_job insert_or_ignore
    recover_expired_jobs claim_jobs complete_job fail_job record_sla_event raise_alert_once
Step-IsLegal (ensure sha1 now session s) h = ground arith
Step-IsLegal (takeover now clock sid enabled s) h = h
Step-IsLegal (transition now sid to_state reason metadata s) h =
    log_transition now sid to_state reason metadata s h
Step-IsLegal (force now sid to_state reason metadata s) h =
    All-append IsLegal s.transitions _ h (tt, tt)
Step-IsLegal (enqueue sha1 now session stage s) h = log_enqueue sha1 now session stage s h
Step-IsLegal (delay now later sid stage seconds payload s) h = ground arith
Step-IsLegal (recover now s) h = h
Step-IsLegal (claim now later limit lease_seconds s) h = h
Step-IsLegal (complete now id expected s) h = h
Step-IsLegal {m} (fail now later id error base expected s) h =
    rw (log_fail now later id error m base expected s (find_where (is_held id expected) s.jobs)) h
Step-IsLegal (sla now sid stage outcome latency fallback intent s) h = h
Step-IsLegal (alert now later alert_type title message cooldown s) h = ground arith

-- From a log of legal entries, every run of the methods leaves one.
pub Reach-IsLegal :
    {m : ℕ} {s t : WorkflowStore}
    → All IsLegal s.transitions
    → Reach m s t
    → All IsLegal t.transitions
Reach-IsLegal h here = h
Reach-IsLegal h (next r step) = Step-IsLegal step (Reach-IsLegal h r)
