-- ===== src/Workflow/Sla.antt =====
-- The SLA records of `WorkflowStore` in src/modules/messages/workflow.py: events, their summary
-- over a window, and alerts with a cooldown; and the counts of `get_workflow_summary`. A rate is in
-- ten-thousandths, since the source rounds it to four digits. The proofs are in the module below.
pub mod Alerts
use realxianyu.Base.{
  ℕ, zero, suc, ◌+◌, ◌-◌, ◌*◌, min, max, Bool, true, false, not, ◌&&◌, ◌||◌, Option, none, some,
  List, [], ◌∷◌, ◌++◌, map, String, ltb, leb, ◌==◌, string_eq, if◌then◌else◌,
}
use realxianyu.Base.Lists.{length, get_elem?}
use realxianyu.Base.Table.{count_where, select_where, exists_where, find_where}
use realxianyu.Workflow.Rows.{
  SessionTask, JobStatus, pending, running, done, dead, Job, SlaEvent, SlaMessage, SlaAlert,
  reply_p95_message, quote_success_message, WorkflowStore,
}
use realxianyu.Workflow.States.{WorkflowState, state_eq}

unfoldable pub record_sla_event :
    ℕ → String → String → String → ℕ → Bool → String → WorkflowStore → WorkflowStore
record_sla_event now sid stage outcome latency_ms quote_fallback intent s =
    let event : SlaEvent = record {
      session_id = sid;
      stage = stage;
      outcome = outcome;
      latency_ms = latency_ms;
      quote_fallback = quote_fallback;
      intent = intent;
      created_at = now;
    } in
    record s { sla_events = s.sla_events ++ event ∷ [] }

-- Python's `sorted` on integers
unfoldable pub insert : ℕ → List ℕ → List ℕ
insert a [] = a ∷ []
insert a (x ∷ xs) = let rest = insert a xs in if leb a x then a ∷ x ∷ xs else x ∷ rest

unfoldable pub sorted : List ℕ → List ℕ
unfolding insert
sorted [] = []
sorted (x ∷ xs) = insert x (sorted xs)

-- `ordered[index]`, at an index that is in range
abbrev pub item_at : List ℕ → ℕ → ℕ
item_at xs i = elim (get_elem? xs i) [ none ↦ 0 | some x ↦ x ]

-- `_percentile`. `scale n` is `int(n * p)` for the float `p`. The bound 0 from below is that of ℕ.
unfoldable pub percentile : (ℕ → ℕ) → List ℕ → ℕ
unfolding sorted
percentile scale [] = 0
percentile scale (x ∷ xs) =
    let ordered = sorted (x ∷ xs) in
    item_at ordered (min (length ordered - 1) (scale (length ordered - 1)))

pub record SlaSummary : Type 0 where
  pub window_minutes : ℕ
  pub event_count : ℕ
  pub first_reply_p50_ms : ℕ
  pub first_reply_p95_ms : ℕ
  pub quote_total : ℕ
  pub quote_need_info_total : ℕ
  pub quote_failed_total : ℕ
  pub quote_success_rate : ℕ
  pub quote_fallback_rate : ℕ

-- the float arithmetic of the summary: `int(n * 0.5)`, `int(n * 0.95)`, and `round(a / b, 4)`
pub record Floats : Type 0 where
  pub half : ℕ → ℕ
  pub ninety_five : ℕ → ℕ
  pub rate : ℕ → ℕ → ℕ

abbrev pub is_first_reply : SlaEvent → Bool
is_first_reply e = e.stage == "reply" || (e.stage == "quote" || e.stage == "quote_need_info")

abbrev pub in_window : ℕ → ℕ → SlaEvent → Bool
in_window now minutes e = leb (now - 60 * max 1 minutes) e.created_at

unfoldable pub get_sla_summary : Floats → ℕ → ℕ → WorkflowStore → SlaSummary
unfolding percentile count_where select_where
get_sla_summary f now window_minutes s =
    let rows = select_where (in_window now window_minutes) s.sla_events in
    let samples = map (λ (e : SlaEvent). e.latency_ms) (select_where is_first_reply rows) in
    let quote_rows = select_where (λ (e : SlaEvent). e.stage == "quote") rows in
    let succeeded = count_where (λ (e : SlaEvent). e.outcome == "success") quote_rows in
    let fallback = count_where (λ (e : SlaEvent). e.quote_fallback) quote_rows in
    record {
      window_minutes = window_minutes;
      event_count = length rows;
      first_reply_p50_ms = percentile f.half samples;
      first_reply_p95_ms = percentile f.ninety_five samples;
      quote_total = length quote_rows;
      quote_need_info_total =
          length (select_where (λ (e : SlaEvent). e.stage == "quote_need_info") rows);
      quote_failed_total = count_where (λ (e : SlaEvent). not (e.outcome == "success")) quote_rows;
      quote_success_rate =
          if leb (length quote_rows) 0 then 0 else f.rate succeeded (length quote_rows);
      quote_fallback_rate =
          if leb (length quote_rows) 0 then 0 else f.rate fallback (length quote_rows);
    }

-- an active alert of the type that is not older than the cooldown
abbrev pub is_recent_alert : ℕ → ℕ → String → SlaAlert → Bool
is_recent_alert later cooldown_minutes alert_type a =
    a.alert_type == alert_type && leb (later - 60 * max 1 cooldown_minutes) a.created_at

-- `_raise_alert_once`; the cutoff is taken from a second reading of the clock
unfoldable pub raise_alert_once :
    ℕ → ℕ → String → String → SlaMessage → ℕ → WorkflowStore → WorkflowStore × Bool
unfolding exists_where find_where
raise_alert_once now later alert_type title message cooldown_minutes s =
    let alert : SlaAlert = record {
      alert_type = alert_type;
      title = title;
      message = message;
      created_at = now;
    } in
    if exists_where (is_recent_alert later cooldown_minutes alert_type) s.sla_alerts
    then (s, false)
    else (record s { sla_alerts = s.sla_alerts ++ alert ∷ [] }, true)

pub record SlaConfig : Type 0 where
  pub window_minutes : ℕ
  pub min_samples : ℕ
  pub reply_p95_threshold_ms : ℕ
  pub quote_success_rate_threshold : ℕ

-- the defaults of `evaluate_sla_alerts`
abbrev pub default_sla_config : SlaConfig
default_sla_config = record {
  window_minutes = 60;
  min_samples = 5;
  reply_p95_threshold_ms = 3000;
  quote_success_rate_threshold = 9800;
}

pub record Alert : Type 0 where
  pub alert_type : String
  pub title : String
  pub message : SlaMessage

-- one of the two checks of `evaluate_sla_alerts`: raise the alert if the condition holds
unfoldable pub check_alert :
    Bool → ℕ → ℕ → String → String → SlaMessage → WorkflowStore → WorkflowStore × List Alert
check_alert breached now later alert_type title message s =
    let (s', raised) = raise_alert_once now later alert_type title message 30 s in
    if breached
    then (
      s',
      if raised
          then record { alert_type = alert_type; title = title; message = message } ∷ []
          else [],
    )
    else (s, [])

unfoldable pub evaluate_sla_alerts :
    Floats → ℕ → ℕ → SlaConfig → WorkflowStore → WorkflowStore × List Alert
evaluate_sla_alerts f now later cfg s =
    let summary = get_sla_summary f now cfg.window_minutes s in
    let (s', replies) =
      check_alert
        (leb cfg.min_samples summary.event_count
          && ltb cfg.reply_p95_threshold_ms summary.first_reply_p95_ms)
        now later "reply_p95" "首响时延超阈值"
        (reply_p95_message summary.first_reply_p95_ms cfg.reply_p95_threshold_ms) s in
    let (s'', quotes) =
      check_alert
        (leb cfg.min_samples summary.quote_total
          && ltb summary.quote_success_rate cfg.quote_success_rate_threshold)
        now later "quote_success" "报价成功率低于阈值"
        (quote_success_message summary.quote_success_rate cfg.quote_success_rate_threshold) s' in
    (s'', replies ++ quotes)

abbrev pub status_is : JobStatus → Job → Bool
status_is pending j = elim j.status [ pending ↦ true | _ ↦ false ]
status_is running j = elim j.status [ running ↦ true | _ ↦ false ]
status_is done j = elim j.status [ done ↦ true | _ ↦ false ]
status_is dead j = elim j.status [ dead ↦ true | _ ↦ false ]

-- The source leaves out a status or a state that no row has; here its count is 0.
pub record WorkflowSummary : Type 0 where
  pub jobs : JobStatus → ℕ
  pub states : WorkflowState → ℕ
  pub manual_takeover_sessions : ℕ

unfoldable pub get_workflow_summary : WorkflowStore → WorkflowSummary
unfolding count_where
get_workflow_summary s = record {
  jobs = λ st. count_where (status_is st) s.jobs;
  states = λ st. count_where (λ (t : SessionTask). t.state == st) s.sessions;
  manual_takeover_sessions = count_where (λ (t : SessionTask). t.manual_takeover) s.sessions;
}
