-- ===== src/Workflow/Store/Transitions.antt =====
-- What the three state methods of `WorkflowStore` do to the session, to other sessions and to the
-- transition log.
use realxianyu.Base.{
  ℕ, ◌<◌, ◌∙◌, ◌≡◌, refl, inl, inr, Bool, true, false, none, some, [], ◌∷◌, ◌++◌, String, arith,
  ◌==◌, string_eq, eq_iff, eq_refl, if◌then◌else◌, Bool-cases, Option-cases,
}
use mathlib.Core.Option
use realxianyu.Base.Table.{update_where, count_where, find_where, exists_where, has_key}
use realxianyu.Base.Table.Laws.{find_where-append, count_where_pos}
use realxianyu.Base.Table.Keyed.{find_where-update_key}
use realxianyu.Workflow.States.{WorkflowState, replied, manual, value, state_eq, can_transition}
use realxianyu.Workflow.Rows.{SessionTask, success, rejected, forced, Transition, WorkflowStore}
use realxianyu.Workflow.Store.{
  task_session, fresh_task, get_session, insert_missing, state_or_new, takeover_state,
  set_manual_takeover, transition_state, force_state, illegal_transition,
}

-- the state of a session; a session that is not in the table counts as new
abbrev pub state_of : String → WorkflowStore → WorkflowState
state_of sid s = state_or_new (get_session sid s)

-- the row of the session that an operation works on
abbrev row_or_fresh : ℕ → String → WorkflowStore → SessionTask
row_or_fresh now sid s = Option.get_or (get_session sid s) (fresh_task now sid)

module _ (now : ℕ) (sid k : String) (s : WorkflowStore) where
  find-insert_missing :
      find_where (has_key task_session k) (insert_missing now sid (get_session sid s) s.sessions)
      ≡ (if sid == k then some (row_or_fresh now sid s) else get_session k s)
  unfolding insert_missing get_session exists_where find_where
  find-insert_missing = elim (Option-cases (get_session sid s)) [
    | inl missing ↦ ground (
      arith,
      eq_iff sid k,
      find_where-append (has_key task_session k) s.sessions (fresh_task now sid ∷ []),
    )
    | inr (row, present) ↦ ground (arith, eq_iff sid k)
  ]

module _ (now : ℕ) (sid : String) (s : WorkflowStore) (k : String)
    (change : SessionTask → SessionTask) where
  -- the row that a lookup finds after the session's row was inserted if missing and updated
  pub find-update_session :
      ((t : SessionTask) → (change t).session_id ≡ t.session_id)
      → find_where (has_key task_session k) (
          update_where
            (has_key task_session sid)
            change
            (insert_missing now sid (get_session sid s) s.sessions))
        ≡ (if sid == k then some (change (row_or_fresh now sid s)) else get_session k s)
  find-update_session keeps = ground (
    arith,
    find_where-update_key task_session change k sid
        (insert_missing now sid (get_session sid s) s.sessions) keeps,
    find-insert_missing now sid k s,
  )

-- `transition_state` answers whether the state machine allows the move from the session's state (NEW
-- for a session that is not there). The session moves exactly then, no other session is touched,
-- and one entry is logged, as success or as rejected.
pub transition_state_lem :
    (now : ℕ) (sid k : String) (to_state : WorkflowState) (reason metadata : String)
    (s : WorkflowStore)
    → let (s', moved) = transition_state now sid to_state reason metadata s in
      (moved ≡ can_transition (state_of sid s) to_state)
      × (state_of sid s' ≡ (if moved then to_state else state_of sid s))
      × (get_session k s' ≡ (if sid == k then get_session sid s' else get_session k s))
      × ((e : Transition) × (s'.transitions ≡ s.transitions ++ e ∷ [])
          × (e.session_id ≡ sid)
          × (e.from_state ≡ value (state_of sid s))
          × (e.to_state ≡ to_state)
          × (e.status ≡ (if moved then success else rejected)))
unfolding transition_state get_session state_or_new
transition_state_lem now sid k to_state reason metadata s =
    let moving =
      λ (t : SessionTask). record t { state = to_state; updated_at = now; last_error = none } in
    let refusing = λ (t : SessionTask). record t {
      last_error = some (illegal_transition (state_of sid s) to_state);
      updated_at = now;
    } in
    elim (Bool-cases (can_transition (state_of sid s) to_state)) [
      | inl allowed ↦ rw allowed (
        refl,
        ground (arith, eq_iff sid sid, find-update_session now sid s sid moving (λ t. refl)),
        ground (
          arith,
          eq_iff sid sid,
          eq_iff sid k,
          find-update_session now sid s sid moving (λ t. refl),
          find-update_session now sid s k moving (λ t. refl),
        ),
        (
          record {
            session_id = sid;
            from_state = value (state_of sid s);
            to_state = to_state;
            status = success;
            reason = reason;
            metadata = metadata;
            error = none;
            created_at = now;
          },
          refl,
          refl,
          refl,
          refl,
          refl,
        ),
      )
      | inr refused ↦ rw refused (
        refl,
        ground (arith, eq_iff sid sid, find-update_session now sid s sid refusing (λ t. refl)),
        ground (
          arith,
          eq_iff sid sid,
          eq_iff sid k,
          find-update_session now sid s sid refusing (λ t. refl),
          find-update_session now sid s k refusing (λ t. refl),
        ),
        (
          record {
            session_id = sid;
            from_state = value (state_of sid s);
            to_state = to_state;
            status = rejected;
            reason = reason;
            metadata = metadata;
            error = some "illegal_transition";
            created_at = now;
          },
          refl,
          refl,
          refl,
          refl,
          refl,
        ),
      )
    ]

-- A session is found in every table that a state method leaves, so its UPDATE counts one row.
count_session :
    (now : ℕ) (sid : String) (s : WorkflowStore)
    → 0
      < count_where
          (has_key task_session sid)
          (insert_missing now sid (get_session sid s) s.sessions)
count_session now sid s =
    count_where_pos (has_key task_session sid)
      (insert_missing now sid (get_session sid s) s.sessions) {x = row_or_fresh now sid s}
      (rw (find-insert_missing now sid sid s, eq_refl sid))

-- Switching the takeover of a session always succeeds and sets its flag. Switched on, the session is
-- MANUAL; switched off, it keeps its state, except that MANUAL becomes REPLIED. No other session
-- is touched and nothing is logged.
pub set_manual_takeover_lem :
    (now clock : ℕ) (sid k : String) (enabled : Bool) (s : WorkflowStore)
    → let (s', changed) = set_manual_takeover now clock sid enabled s in
      (changed ≡ true)
      × (Option.map (λ (t : SessionTask). t.manual_takeover) (get_session sid s') ≡ some enabled)
      × (state_of sid s' ≡ (
          if enabled then manual else if state_of sid s == manual then replied else state_of sid s))
      × (get_session k s' ≡ (if sid == k then get_session sid s' else get_session k s))
      × (s'.transitions ≡ s.transitions)
unfolding set_manual_takeover get_session state_or_new takeover_state
set_manual_takeover_lem now clock sid k enabled s =
    let change = λ (t : SessionTask). record t {
      manual_takeover = enabled;
      state = takeover_state enabled (state_of sid s);
      updated_at = now;
    } in
    let found = find-update_session now sid s sid change (λ t. refl) in
    (
      ground (arith, count_session now sid s),
      ground (arith, eq_iff sid sid, found),
      ground (arith, eq_iff sid sid, found),
      ground (
        arith,
        eq_iff sid sid,
        eq_iff sid k,
        find-update_session now sid s sid change (λ t. refl),
        find-update_session now sid s k change (λ t. refl),
      ),
      refl,
    )

-- Whatever state a session was in, CLOSED and ORDERED included, switching its takeover on and off
-- again leaves it REPLIED, with no entry in the log.
pub takeover_released :
    (now clock now' clock' : ℕ) (sid : String) (s : WorkflowStore)
    → let s' =
        (set_manual_takeover now' clock' sid false
          (set_manual_takeover now clock sid true s).0).0 in
      (state_of sid s' ≡ replied) × (s'.transitions ≡ s.transitions)
takeover_released now clock now' clock' sid s =
    let on = set_manual_takeover_lem now clock sid sid true s in
    let off =
      set_manual_takeover_lem now' clock' sid sid false
        (set_manual_takeover now clock sid true s).0 in
    (off.2 ∙ rw on.2, off.4 ∙ on.4)

-- A forced move always happens, whatever the state machine says, and is logged as forced.
pub force_state_lem :
    (now : ℕ) (sid k : String) (to_state : WorkflowState) (reason metadata : String)
    (s : WorkflowStore)
    → let (s', moved) = force_state now sid to_state reason metadata s in
      (moved ≡ true)
      × (state_of sid s' ≡ to_state)
      × (get_session k s' ≡ (if sid == k then get_session sid s' else get_session k s))
      × ((e : Transition) × (s'.transitions ≡ s.transitions ++ e ∷ [])
          × (e.status ≡ forced)
          × (e.from_state ≡ value (state_of sid s))
          × (e.to_state ≡ to_state))
unfolding force_state get_session state_or_new
force_state_lem now sid k to_state reason metadata s =
    let moving =
      λ (t : SessionTask). record t { state = to_state; updated_at = now; last_error = none } in
    (
      refl,
      ground (arith, eq_iff sid sid, find-update_session now sid s sid moving (λ t. refl)),
      ground (
        arith,
        eq_iff sid sid,
        eq_iff sid k,
        find-update_session now sid s sid moving (λ t. refl),
        find-update_session now sid s k moving (λ t. refl),
      ),
      (
        record {
          session_id = sid;
          from_state = value (state_of sid s);
          to_state = to_state;
          status = forced;
          reason = reason;
          metadata = metadata;
          error = none;
          created_at = now;
        },
        refl,
        refl,
        refl,
        refl,
      ),
    )
