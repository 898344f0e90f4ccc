-- ===== src/ManualMode.antt =====
-- src/modules/messages/manual_mode.py: the manual takeover mode of a message session.
-- A row of the table message_manual_mode is a `Row`; a method takes the reading of the clock as its
-- first argument and returns the new store with its result. Times are in one unit (a float
-- `time.time()` in the source), and so are the two durations, which the constructor makes
-- non-negative. The proofs are in the modules below.
pub mod Recovery
mod Tests
use realxianyu.Base.{
  ℕ, ◌+◌, ◌-◌, Bool, true, false, not, ◌&&◌, Option, none, some, List, [], ◌∷◌, String, ltb, leb,
  ◌==◌, string_eq, if◌then◌else◌,
}
use realxianyu.Base.Table.{select_where, find_where, has_key, upsert_by}

pub record ManualModeState : Type 0 where
  pub session_id : String
  pub enabled : Bool
  pub updated_at : ℕ
  pub expires_at : Option ℕ

pub record ManualModeResult : Type 0 where
  pub state : ManualModeState
  pub toggled : Bool
  pub timeout_recovered : Bool
  pub smart_recovered : Bool

pub record Row : Type 0 where
  pub session_id : String
  pub enabled : Bool
  pub updated_at : ℕ
  pub expires_at : Option ℕ
  pub last_seller_msg_at : Option ℕ
  pub last_buyer_msg_at : Option ℕ

pub record ManualModeStore : Type 0 where
  pub toggle_keyword : String
  pub timeout_seconds : ℕ
  pub resume_after_seconds : ℕ
  pub rows : List Row

abbrev pub row_session : Row → String
row_session r = r.session_id

-- `expires_at` of a mode that is set at `now_ts`
unfoldable pub expiry : ℕ → Bool → ℕ → Option ℕ
expiry timeout enabled now_ts = if enabled && ltb 0 timeout then some (now_ts + timeout) else none

-- `_upsert`
unfoldable pub upsert : String → Bool → ℕ → ManualModeStore → ManualModeStore × ManualModeState
unfolding expiry upsert_by
upsert sid on now_ts s =
    let expires = expiry s.timeout_seconds on now_ts in
    let fresh : Row = record {
      session_id = sid;
      enabled = on;
      updated_at = now_ts;
      expires_at = expires;
      last_seller_msg_at = none;
      last_buyer_msg_at = none;
    } in
    let change =
      λ (r : Row). record r { enabled = on; updated_at = now_ts; expires_at = expires } in
    (
      record s { rows = upsert_by row_session fresh change s.rows },
      record { session_id = sid; enabled = on; updated_at = now_ts; expires_at = expires },
    )

-- `_get_raw`
unfoldable pub get_raw : String → ManualModeStore → Option Row
unfolding find_where
get_raw sid s = find_where (has_key row_session sid) s.rows

abbrev pub reached : Option ℕ → ℕ → Bool
reached none now_ts = false
reached (some t) now_ts = leb t now_ts

-- the buyer wrote last, and the seller has been silent for `resume` since then; `resume` is
-- positive where this is read, so that the truncated difference is exact
abbrev pub buyer_waits : ℕ → Option ℕ → Option ℕ → ℕ → Bool
buyer_waits resume (some seller) (some buyer) now_ts =
    ltb seller buyer && leb resume (now_ts - buyer)
buyer_waits resume _ _ now_ts = false

abbrev pub row_state : Row → ManualModeState
row_state r = record {
  session_id = r.session_id;
  enabled = r.enabled;
  updated_at = r.updated_at;
  expires_at = r.expires_at;
}

unfoldable pub recover_row : ℕ → String → ManualModeStore → Row → ManualModeStore × ManualModeResult
unfolding upsert
recover_row now_ts sid s r =
    if r.enabled && reached r.expires_at now_ts
    then (let (s', state) = upsert sid false now_ts s in
        (
          s',
          record {
            state = state;
            toggled = false;
            timeout_recovered = true;
            smart_recovered = false;
          },
        ))
    else if r.enabled
        && ltb 0 s.resume_after_seconds
        && buyer_waits s.resume_after_seconds r.last_seller_msg_at r.last_buyer_msg_at now_ts
    then (let (s', state) = upsert sid false now_ts s in
        (
          s',
          record {
            state = state;
            toggled = false;
            timeout_recovered = false;
            smart_recovered = true;
          },
        ))
    else (
      s,
      record {
        state = row_state r;
        toggled = false;
        timeout_recovered = false;
        smart_recovered = false;
      },
    )

unfoldable pub get_state : ℕ → String → ManualModeStore → ManualModeStore × ManualModeResult
unfolding get_raw recover_row
get_state now_ts sid s = elim (get_raw sid s) [
  | none ↦ (
    s,
    record {
      state = record { session_id = sid; enabled = false; updated_at = now_ts; expires_at = none };
      toggled = false;
      timeout_recovered = false;
      smart_recovered = false;
    },
  )
  | some r ↦ recover_row now_ts sid s r
]

unfoldable pub set_state : ℕ → String → Bool → ManualModeStore → ManualModeStore × ManualModeState
unfolding upsert
set_state now_ts sid on s = upsert sid on now_ts s

-- the CASE in the conflict clause reads the old `enabled`
unfoldable pub record_seller_activity : ℕ → String → ManualModeStore → ManualModeStore
unfolding upsert_by
record_seller_activity now_ts sid s =
    let new_expires = if ltb 0 s.timeout_seconds then some (now_ts + s.timeout_seconds) else none in
    let fresh : Row = record {
      session_id = sid;
      enabled = false;
      updated_at = now_ts;
      expires_at = none;
      last_seller_msg_at = some now_ts;
      last_buyer_msg_at = none;
    } in
    let change = λ (r : Row). record r {
      last_seller_msg_at = some now_ts;
      expires_at = if r.enabled then new_expires else r.expires_at;
    } in
    record s { rows = upsert_by row_session fresh change s.rows }

unfoldable pub record_buyer_activity : ℕ → String → ManualModeStore → ManualModeStore
unfolding upsert_by
record_buyer_activity now_ts sid s =
    let fresh : Row = record {
      session_id = sid;
      enabled = false;
      updated_at = now_ts;
      expires_at = none;
      last_seller_msg_at = none;
      last_buyer_msg_at = some now_ts;
    } in
    let change = λ (r : Row). record r { last_buyer_msg_at = some now_ts } in
    record s { rows = upsert_by row_session fresh change s.rows }

unfoldable pub toggle : ℕ → String → ManualModeStore → ManualModeStore × ManualModeState
unfolding get_state set_state
toggle now_ts sid s =
    let (s', current) = get_state now_ts sid s in
    set_state now_ts sid (not current.state.enabled) s'

unfoldable pub disable : ℕ → String → ManualModeStore → ManualModeStore × ManualModeState
unfolding set_state
disable now_ts sid s = set_state now_ts sid false s

-- the loop of `list_active` over the rows that the SELECT returned
unfoldable pub list_rows : ℕ → List Row → ManualModeStore → ManualModeStore × List ManualModeState
unfolding upsert
list_rows now_ts [] s = (s, [])
list_rows now_ts (r ∷ rs) s =
    let expired = reached r.expires_at now_ts in
    let (s', rest) =
      list_rows now_ts rs (if expired then (upsert r.session_id false now_ts s).0 else s) in
    (s', if expired then rest else row_state r ∷ rest)

unfoldable pub list_active : ℕ → ManualModeStore → ManualModeStore × List ManualModeState
unfolding list_rows select_where
list_active now_ts s = list_rows now_ts (select_where (λ (r : Row). r.enabled) s.rows) s

-- `strip` is Python's `str.strip`
unfoldable pub process_message :
    (String → String) → ℕ → String → String → ManualModeStore → ManualModeStore × ManualModeResult
unfolding get_state toggle
process_message strip now_ts sid message s =
    let (s', baseline) = get_state now_ts sid s in
    let (s'', state) = toggle now_ts sid s' in
    if strip message == s.toggle_keyword
    then (
      s'',
      record {
        state = state;
        toggled = true;
        timeout_recovered = baseline.timeout_recovered;
        smart_recovered = false;
      },
    )
    else (s', baseline)
