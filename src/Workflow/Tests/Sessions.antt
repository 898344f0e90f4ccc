-- ===== src/Workflow/Tests/Sessions.antt =====
-- The sessions, their log, and the SLA records.
use realxianyu.Base.{◌≡◌, refl, true, false, [], ◌∷◌, ◌++◌, arith, string_eq, if◌then◌else◌}
use realxianyu.Base.Lists.{All}
use realxianyu.Workflow.Tests.{sha1, hello, queue}
use realxianyu.Workflow.States.{new, replied, closed, value, can_transition, state_eq}
use realxianyu.Workflow.Rows.{Transition, success, rejected, reply_p95_message, WorkflowStore}
use realxianyu.Workflow.Store.{get_session, set_manual_takeover, transition_state, force_state}
use realxianyu.Workflow.Store.Transitions.{state_of, transition_state_lem, takeover_released}
use realxianyu.Workflow.Jobs.{enqueue_job}
use realxianyu.Workflow.Steps.{here, next, enqueue, transition}
use realxianyu.Workflow.Log.{IsLegal, Reach-IsLegal}
use realxianyu.Workflow.Sla.{raise_alert_once}
use realxianyu.Workflow.Sla.Alerts.{raise_alert_once_cooldown}

transition_state_lem_example :
    let (s', moved) = transition_state 9 "s1" new "test" "{}" queue in
    (moved ≡ can_transition (state_of "s1" queue) new)
    × (state_of "s1" s' ≡ (if moved then new else state_of "s1" queue))
    × (get_session "s2" s' ≡ get_session "s2" queue)
    × ((e : Transition) × (s'.transitions ≡ queue.transitions ++ e ∷ [])
        × (e.session_id ≡ "s1")
        × (e.from_state ≡ value (state_of "s1" queue))
        × (e.to_state ≡ new)
        × (e.status ≡ (if moved then success else rejected)))
transition_state_lem_example = transition_state_lem 9 "s1" "s2" new "test" "{}" queue

abbrev closed_session : WorkflowStore
closed_session = (force_state 8 "s1" closed "sold" "{}" queue).0

takeover_released_example :
    let s' =
      (set_manual_takeover 10 10 "s1" false
        (set_manual_takeover 9 9 "s1" true closed_session).0).0 in
    (state_of "s1" s' ≡ replied) × (s'.transitions ≡ closed_session.transitions)
takeover_released_example = takeover_released 9 9 10 10 "s1" closed_session

abbrev received_and_refused : WorkflowStore
received_and_refused =
    (transition_state 10 "s1" new "test" "{}" (enqueue_job sha1 9 hello "reply" queue).0).0

Reach-IsLegal_example : All IsLegal received_and_refused.transitions
Reach-IsLegal_example = Reach-IsLegal {m = 3} {s = queue} {t = received_and_refused} tt (
    next (next here (enqueue sha1 9 hello "reply" queue))
      (transition 10 "s1" new "test" "{}" (enqueue_job sha1 9 hello "reply" queue).0))

abbrev alerted : WorkflowStore
alerted = (raise_alert_once 100 100 "reply_p95" "slow" (reply_p95_message 9000 3000) 30 queue).0

raised :
    (raise_alert_once 100 100 "reply_p95" "slow" (reply_p95_message 9000 3000) 30 queue).1 ≡ true
unfolding raise_alert_once
raised = refl

raise_alert_once_cooldown_example :
    raise_alert_once 400 400 "reply_p95" "slow" (reply_p95_message 8000 3000) 30 alerted
    ≡ (alerted, false)
raise_alert_once_cooldown_example =
    raise_alert_once_cooldown 100 100 400 400 "reply_p95" "slow" "slow"
      (reply_p95_message 9000 3000) (reply_p95_message 8000 3000) 30 30 queue (omega arith) raised
