-- ===== src/Workflow/Store.antt =====
-- The sessions of `WorkflowStore` in src/modules/messages/workflow.py. The store is a record of
-- its tables; a method takes the readings of the clock (whole seconds, as `_now` formats them)
-- first and returns the new store with its result. The proofs are in the modules below.
pub mod Transitions
use realxianyu.Base.{
  ℕ, Bool, true, false, Option, none, some, List, [], ◌∷◌, ◌++◌, String, ltb, ◌==◌, string_eq,
  if◌then◌else◌, text_append,
}
use realxianyu.Base.Table.{update_where, count_where, find_where, has_key, upsert_by}
use realxianyu.ManualMode.{ManualModeStore}
use realxianyu.ManualMode
use realxianyu.Workflow.Rows.{
  Session, SessionTask, success, rejected, forced, Transition, WorkflowStore,
}
use realxianyu.Workflow.States.{
  WorkflowState, new, replied, manual, value, state_eq, can_transition,
}

abbrev pub task_session : SessionTask → String
task_session t = t.session_id

-- the row that `INSERT INTO session_tasks(session_id, state, manual_takeover, …)` creates
abbrev pub fresh_task : ℕ → String → SessionTask
fresh_task now sid = record {
  session_id = sid;
  state = new;
  manual_takeover = false;
  last_message_hash = none;
  last_peer_name = none;
  last_item_title = none;
  last_error = none;
  created_at = now;
  updated_at = now;
}

unfoldable pub bind_manual_mode_store : ManualModeStore → WorkflowStore → WorkflowStore
bind_manual_mode_store m s = record s { manual_mode = some m }

-- `sha1` is `hashlib.sha1(…).hexdigest()`.
unfoldable pub ensure_session : (String → String) → ℕ → Session → WorkflowStore → WorkflowStore
unfolding upsert_by
ensure_session sha1 now session s =
    let fresh : SessionTask = record (fresh_task now session.session_id) {
      last_message_hash = some (sha1 session.last_message);
      last_peer_name = some session.peer_name;
      last_item_title = some session.item_title;
    } in
    let change = λ (t : SessionTask). record t {
      last_message_hash = some (sha1 session.last_message);
      last_peer_name = some session.peer_name;
      last_item_title = some session.item_title;
      updated_at = now;
    } in
    if session.session_id == ""
    then s
    else record s { sessions = upsert_by task_session fresh change s.sessions }

unfoldable pub get_session : String → WorkflowStore → Option SessionTask
unfolding find_where
get_session sid s = find_where (has_key task_session sid) s.sessions

-- the branch on `row is None` that the three state methods share
unfoldable pub insert_missing :
    ℕ → String → Option SessionTask → List SessionTask → List SessionTask
insert_missing now sid none tasks = tasks ++ fresh_task now sid ∷ []
insert_missing now sid (some row) tasks = tasks

unfoldable pub state_or_new : Option SessionTask → WorkflowState
state_or_new none = new
state_or_new (some row) = row.state

-- `_manual_mode_store.set_state`, where a store is bound; `clock` is its own reading of the time
unfoldable pub sync_manual_mode :
    ℕ → String → Bool → Option ManualModeStore → Option ManualModeStore
sync_manual_mode clock sid enabled none = none
sync_manual_mode clock sid enabled (some m) = some (ManualMode.set_state clock sid enabled m).0

unfoldable pub takeover_state : Bool → WorkflowState → WorkflowState
takeover_state enabled prev_state =
    if enabled then manual else if prev_state == manual then replied else prev_state

unfoldable pub set_manual_takeover : ℕ → ℕ → String → Bool → WorkflowStore → WorkflowStore × Bool
set_manual_takeover now clock sid enabled s =
    let row = get_session sid s in
    let tasks = insert_missing now sid row s.sessions in
    let new_state = takeover_state enabled (state_or_new row) in
    let matches = has_key task_session sid in
    let changed = ltb 0 (count_where matches tasks) in
    (
      record s {
        sessions =
            update_where matches
              (λ t. record t { manual_takeover = enabled; state = new_state; updated_at = now })
              tasks;
        manual_mode = sync_manual_mode clock sid enabled s.manual_mode;
        notified =
            if changed
            then (if enabled then s.notified ++ sid ∷ [] else s.notified)
            else s.notified;
      },
      changed,
    )

abbrev pub illegal_transition : WorkflowState → WorkflowState → String
illegal_transition from_state to_state =
    text_append "illegal_transition:"
      (text_append (value from_state) (text_append "->" (value to_state)))

unfoldable pub transition_state :
    ℕ → String → WorkflowState → String → String → WorkflowStore → WorkflowStore × Bool
transition_state now sid to_state reason metadata s =
    let row = get_session sid s in
    let from_state = state_or_new row in
    let tasks = insert_missing now sid row s.sessions in
    let matches = has_key task_session sid in
    let allowed = can_transition from_state to_state in
    let updated =
      if allowed
      then update_where matches
          (λ t. record t { state = to_state; updated_at = now; last_error = none }) tasks
      else tasks in
    let entry : Transition = record {
      session_id = sid;
      from_state = value from_state;
      to_state = to_state;
      status = if allowed then success else rejected;
      reason = reason;
      metadata = metadata;
      error = if allowed then none else some "illegal_transition";
      created_at = now;
    } in
    let logged = record s { sessions = updated; transitions = s.transitions ++ entry ∷ [] } in
    if allowed then (logged, true) else (
      record logged {
        sessions =
            update_where matches
              (λ t. record t {
                last_error = some (illegal_transition from_state to_state);
                updated_at = now;
              })
              updated;
      },
      false,
    )

unfoldable pub force_state :
    ℕ → String → WorkflowState → String → String → WorkflowStore → WorkflowStore × Bool
force_state now sid to_state reason metadata s =
    let row = get_session sid s in
    let tasks = insert_missing now sid row s.sessions in
    let entry : Transition = record {
      session_id = sid;
      from_state = value (state_or_new row);
      to_state = to_state;
      status = forced;
      reason = reason;
      metadata = metadata;
      error = none;
      created_at = now;
    } in
    (
      record s {
        sessions =
            update_where (has_key task_session sid)
              (λ t. record t { state = to_state; updated_at = now; last_error = none }) tasks;
        transitions = s.transitions ++ entry ∷ [];
      },
      true,
    )
