-- ===== src/ManualMode/Tests.antt =====
-- A store of two sessions, and the theorems of Recovery at concrete inputs.
use realxianyu.Base.{◌≡◌, refl, true, not, ◌&&◌, some, [], ◌∷◌, arith, ltb}
use realxianyu.ManualMode.{
  Row, ManualModeStore, expiry, reached, buyer_waits, get_raw, get_state, set_state,
  record_seller_activity,
}
use realxianyu.ManualMode.Recovery.{
  seller_of, buyer_of, get_state-set_state, get_state-record_seller_activity,
}

abbrev on_row : Row
on_row = record {
  session_id = "a";
  enabled = true;
  updated_at = 0;
  expires_at = some 100;
  last_seller_msg_at = some 10;
  last_buyer_msg_at = some 20;
}

abbrev store : ManualModeStore
store = record {
  toggle_keyword = "#";
  timeout_seconds = 100;
  resume_after_seconds = 50;
  rows = on_row ∷ record on_row { session_id = "b"; expires_at = some 5 } ∷ [];
}

resumes : (get_state 80 "a" store).1.smart_recovered ≡ true
unfolding get_state
resumes = refl

get_state-set_state_example : (get_state 40 "a" (set_state 30 "a" true store).0).1.state.enabled ≡ (
    true
    && not (reached (expiry 100 true 30) 40)
    && not (
        ltb 0 50
        && buyer_waits 50 (seller_of (get_raw "a" store)) (buyer_of (get_raw "a" store)) 40))
get_state-set_state_example = get_state-set_state "a" true 30 40 store

found : get_raw "a" store ≡ some on_row
unfolding get_raw
found = refl

get_state-record_seller_activity_example :
    (get_state 120 "a" (record_seller_activity 30 "a" store)).1.state.enabled ≡ true
get_state-record_seller_activity_example =
    get_state-record_seller_activity 30 120 "a" store {r = on_row} found refl (omega arith)
      (omega arith)
