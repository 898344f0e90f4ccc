-- ===== src/ManualMode/Recovery.antt =====
-- When the manual mode of src/modules/messages/manual_mode.py ends by itself: by timeout, or
-- because the buyer waits for an answer.
use mathlib.Core.Option
use realxianyu.Base.{
  ℕ, ◌+◌, ◌≤◌, ◌<◌, ◌≡◌, refl, Bool, true, false, not, ◌&&◌, Option, none, some, String, List, [],
  ◌∷◌, arith, eq_iff, ltb, ◌==◌, string_eq, if◌then◌else◌, Option-cases, inl, inr,
}
use mathlib.Core.List.{map}
use realxianyu.Base.Table.{select_where, has_key}
use realxianyu.Base.Table.Keyed.{find_where-upsert_by}
use realxianyu.Base.Table.Laws.{find_where_holds}
use realxianyu.ManualMode.{
  Row, ManualModeStore, row_session, expiry, upsert, get_raw, reached, buyer_waits, list_rows,
  list_active, row_state, recover_row, get_state, set_state, record_seller_activity, toggle,
}

abbrev pub seller_of : Option Row → Option ℕ
seller_of none = none
seller_of (some r) = r.last_seller_msg_at

abbrev pub buyer_of : Option Row → Option ℕ
buyer_of none = none
buyer_of (some r) = r.last_buyer_msg_at

-- the row of `sid` after an upsert, which keeps the two message times
abbrev upserted : String → Bool → ℕ → ManualModeStore → Row
upserted sid on t s = record {
  session_id = sid;
  enabled = on;
  updated_at = t;
  expires_at = expiry s.timeout_seconds on t;
  last_seller_msg_at = seller_of (get_raw sid s);
  last_buyer_msg_at = buyer_of (get_raw sid s);
}

module _ (sid k : String) (s : ManualModeStore) where
  get_raw_session : {r : Row} → get_raw k s ≡ some r → r.session_id ≡ k
  unfolding get_raw
  get_raw_session {r} e =
      (eq_iff r.session_id k).0 (find_where_holds (has_key row_session k) s.rows e)

  pub get_raw-upsert :
      (on : Bool) (t : ℕ)
      → get_raw k (upsert sid on t s).0
        ≡ (if sid == k then some (upserted sid on t s) else get_raw k s)
  unfolding get_raw upsert
  get_raw-upsert on t =
      let found =
        find_where-upsert_by row_session
          (record {
            session_id = sid;
            enabled = on;
            updated_at = t;
            expires_at = expiry s.timeout_seconds on t;
            last_seller_msg_at = none;
            last_buyer_msg_at = none;
          })
          (λ r. record r {
            enabled = on;
            updated_at = t;
            expires_at = expiry s.timeout_seconds on t;
          })
          k s.rows (λ x. refl) in
      elim (Option-cases (get_raw k s)) [
        | inl e ↦ ground (arith, eq_iff sid k)
        | inr (r, e) ↦ ground (arith, eq_iff sid k, get_raw_session e)
      ]

-- After a session is set to `on` at time `t`, it is found enabled at `t'` exactly when it was
-- set on, has not timed out, and is not a session whose buyer waits.
pub get_state-set_state :
    (sid : String) (on : Bool) (t t' : ℕ) (s : ManualModeStore)
    → (get_state t' sid (set_state t sid on s).0).1.state.enabled ≡ (
        on
        && not (reached (expiry s.timeout_seconds on t) t')
        && not (
            ltb 0 s.resume_after_seconds
            && buyer_waits s.resume_after_seconds
                (seller_of (get_raw sid s))
                (buyer_of (get_raw sid s))
                t'))
unfolding get_state set_state recover_row
get_state-set_state sid on t t' s = ground (arith, get_raw-upsert sid sid s on t, eq_iff sid sid)

-- Asking for the state a second time at the same moment changes nothing and finds the same state.
pub get_state_idem :
    (t : ℕ) (sid : String) (s : ManualModeStore)
    → (let (s', r) = get_state t sid s in
        ((get_state t sid s').0 ≡ s') × ((get_state t sid s').1.state ≡ r.state))
unfolding get_state recover_row upsert expiry
get_state_idem t sid s = ground (arith, get_raw-upsert sid sid s false t, eq_iff sid sid)

-- No method changes the row of another session.
pub get_raw-get_state :
    (t : ℕ) (sid k : String) (s : ManualModeStore)
    → (sid == k) ≡ false
    → get_raw k (get_state t sid s).0 ≡ get_raw k s
unfolding get_state recover_row
get_raw-get_state t sid k s h = ground (arith, get_raw-upsert sid k s false t)

-- The row of a session after a message of the seller.
get_raw-record_seller_activity :
    (t : ℕ) (sid : String) (s : ManualModeStore) {r : Row}
    → get_raw sid s ≡ some r
    → get_raw sid (record_seller_activity t sid s)
      ≡ some (record r {
        last_seller_msg_at = some t;
        expires_at = if r.enabled then expiry s.timeout_seconds true t else r.expires_at;
      })
unfolding get_raw record_seller_activity expiry
get_raw-record_seller_activity t sid s {r} e =
    let new_expires = if ltb 0 s.timeout_seconds then some (t + s.timeout_seconds) else none in
    ground (
      arith,
      eq_iff sid sid,
      find_where-upsert_by row_session
          (record {
            session_id = sid;
            enabled = false;
            updated_at = t;
            expires_at = none;
            last_seller_msg_at = some t;
            last_buyer_msg_at = none;
          })
          (λ x. record x {
            last_seller_msg_at = some t;
            expires_at = if x.enabled then new_expires else x.expires_at;
          })
          sid s.rows (λ x. refl),
    )

-- the time, if there is one, is not after `t`
abbrev pub NotAfter : Option ℕ → ℕ → Type 0
NotAfter none t = Unit
NotAfter (some b) t = b ≤ t

-- A message of the seller at time `t` keeps an enabled session enabled until the timeout has
-- passed since then, unless the buyer writes after it.
pub get_state-record_seller_activity :
    (t t' : ℕ) (sid : String) (s : ManualModeStore) {r : Row}
    → get_raw sid s ≡ some r
    → r.enabled ≡ true
    → NotAfter r.last_buyer_msg_at t
    → t' < t + s.timeout_seconds
    → (get_state t' sid (record_seller_activity t sid s)).1.state.enabled ≡ true
unfolding get_state recover_row expiry
get_state-record_seller_activity t t' sid s {r} e on buyer early =
    ground (arith, get_raw-record_seller_activity t sid s e)

-- A toggle leaves the session in the opposite of the mode that `get_state` reports.
pub toggle-get_state :
    (t : ℕ) (sid : String) (s : ManualModeStore)
    → let s' = (toggle t sid s).0 in
      Option.map (λ (r : Row). r.enabled) (get_raw sid s')
      ≡ some (not (get_state t sid s).1.state.enabled)
unfolding toggle set_state
toggle-get_state t sid s = ground (
  arith,
  eq_iff sid sid,
  get_raw-upsert sid sid (get_state t sid s).0 (not (get_state t sid s).1.state.enabled) t,
)

list_rows-select_where :
    (t : ℕ) (rs : List Row) (s : ManualModeStore)
    → (list_rows t rs s).1 ≡ map row_state (select_where (λ r. not (reached r.expires_at t)) rs)
unfolding list_rows select_where
list_rows-select_where t [] s = refl
list_rows-select_where t (r ∷ rs) s = ground (
  arith,
  list_rows-select_where t rs
      (if reached r.expires_at t then (upsert r.session_id false t s).0 else s),
)

-- `list_active` returns exactly the sessions that are enabled and have not timed out, in the
-- order of the table.
pub list_active-select_where :
    (t : ℕ) (s : ManualModeStore)
    → (list_active t s).1
      ≡ map row_state
          (select_where (λ r. not (reached r.expires_at t)) (select_where (λ r. r.enabled) s.rows))
unfolding list_active
list_active-select_where t s = list_rows-select_where t (select_where (λ r. r.enabled) s.rows) s
