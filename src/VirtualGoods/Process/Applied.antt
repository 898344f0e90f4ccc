-- ===== src/VirtualGoods/Process/Applied.antt =====
-- What a reply of `process` of src/modules/virtual_goods/callbacks.py with success has left: the event
-- is stored under the id of the reply, and its callback is marked as processed.

use realxianyu.Base.{
  ℕ, ◌≡◌, refl, sym, subst, Bool, true, false, not, ◌&&◌, ◌||◌, none, some, String, arith, ◌==◌,
  string_eq, nat_eq, Option-cases, inl, inr, if_both, if_both_with, is_some,
}
use realxianyu.Base.Result.{Result, ok, raised}
use realxianyu.Base.Table.{find_where}
use realxianyu.Base.Table.Laws.{find_where-update_where, find_where_holds}
use realxianyu.VirtualGoods.Rows.{Payload, VirtualGoodsStore}
use realxianyu.VirtualGoods.Callbacks.{NewCallback}
use realxianyu.VirtualGoods.Callbacks.Lease.{
  has_callback_id, is_claimable, claim_callback_lease, get_callback, mark_callback_processed,
  marked,
}
use realxianyu.VirtualGoods.Callbacks.Invariant.{
  CallbacksValid, SameTables, insert_callback-CallbacksValid,
}
use realxianyu.VirtualGoods.Callbacks.Leases.{claimed-is_some}
use realxianyu.VirtualGoods.Callbacks.Events.{
  Accepted, EventAt, Stored, update_where-Located, insert_callback-Stored,
}
use realxianyu.VirtualGoods.Process.Target.{normalize_event_kind}
use realxianyu.VirtualGoods.Process.Released.{claimed_of-id}
use realxianyu.VirtualGoods.Process.Cases.{
  written_store, notify_failed-SameTables, apply_claimed-cases,
}
use realxianyu.VirtualGoods.Process.Verify.{Verdict}
use realxianyu.VirtualGoods.Process.{
  process_payload, after_insert, store_verified, reject_family, consider, claim_and_apply,
  claimed_of, release_on_error, apply_claimed, notify_failed, callback_of, store_callback,
  bad_family, verdict_of,
}
use realxianyu.VirtualGoods.Process.Types.{
  Env, Times, Request, Answer, Reply, Claimed, is_processed, is_verified, normalize_source_family,
}

-- a mark sets the flag of a row that is there
pub marked-is_processed :
    (now i : ℕ) (s : VirtualGoodsStore)
    → is_some (get_callback i s) ≡ true
    → is_processed (get_callback i (mark_callback_processed now i true "" s)) ≡ true
unfolding get_callback mark_callback_processed
marked-is_processed now i s there =
    let updated =
      find_where-update_where (has_callback_id i) (has_callback_id i) (marked now true "")
        s.callbacks (λ x. refl) in
    elim (Option-cases (find_where (has_callback_id i) s.callbacks)) [
      | inl e ↦ absurd (ground (arith, there, e))
      | inr (r, e) ↦ ground (arith, updated, e, find_where_holds (has_callback_id i) s.callbacks e)
    ]

-- the callback is reported as processed, now or before
abbrev pub succeeds : Answer → Bool
succeeds a = a.processed || a.duplicate && a.processed_state == "processed"

module _ (env : Env) (t : Times) (a : NewCallback) where
  -- the event of `a` stands under `i`
  abbrev Here : ℕ → VirtualGoodsStore → Type 0
  Here i s = EventAt env.casing env.upper t.insert_at a i s

  -- what a reply with success has left
  abbrev Finished : Reply → Type 0
  Finished (s, raised e) = Unit
  Finished (s, ok ans) =
      succeeds ans ≡ true
      → Here ans.callback_id s × (is_processed (get_callback ans.callback_id s) ≡ true)

  mark-Here :
      (j i : ℕ) (s : VirtualGoodsStore)
      → Here i s
      → Here i (mark_callback_processed t.mark_at j true "" s)
  unfolding mark_callback_processed
  mark-Here j i s h =
      update_where-Located _ _ i (has_callback_id j) _ s.callbacks (λ r. refl) (λ r. refl) h

  claim-Here :
      (i : ℕ) (s : VirtualGoodsStore)
      → Here i s
      → Here i (claim_callback_lease env.casing t.claim_at t.lease_at i (some false) none s).0
  unfolding claim_callback_lease
  claim-Here i s h =
      update_where-Located _ _ i
        (λ r. has_callback_id i r && is_claimable t.claim_at (some false) r) _ s.callbacks
        (λ r. refl) (λ r. refl) h

  apply_claimed-Finished :
      (k : Claimed) (s : VirtualGoodsStore)
      → is_some (get_callback k.callback_id s) ≡ true
      → Here k.callback_id s
      → Finished (apply_claimed env t k s)
  unfolding get_callback
  apply_claimed-Finished k s found h =
      apply_claimed-cases env t k s Finished
        (λ reason ans quiet done.
          absurd (ground (arith, quiet.not_processed, quiet.other_state, done)))
        (λ e. tt)
        (λ next st f cb _ _ _.
          let written = written_store env t k next st f cb s in
          let same = SameTables.same_callbacks (notify_failed-SameTables env t k next written) in
          let s' = notify_failed env t k next written in
          (
            mark-Here k.callback_id k.callback_id s' (rw same h),
            marked-is_processed t.mark_at k.callback_id s' (rw same found),
          ))

  release_on_error-Finished :
      (k : Claimed) (r : Reply) → Finished r → Finished (release_on_error env t k r)
  release_on_error-Finished k (s, ok ans) h = h
  release_on_error-Finished k (s, raised e) h = tt

  claim_and_apply-Finished :
      (kind : String) (i : ℕ) (inserted : Bool) (s : VirtualGoodsStore)
      → CallbacksValid s
      → Here i s
      → Finished (claim_and_apply env t kind i inserted s)
  unfolding claim_and_apply
  claim_and_apply-Finished kind i inserted s v h =
      let s' = (claim_callback_lease env.casing t.claim_at t.lease_at i (some false) none s).0 in
      let k = claimed_of env t i kind (not inserted) (get_callback i s') in
      let id = sym (claimed_of-id env t i kind (not inserted) s') in
      if_both_with Finished
        (claim_callback_lease env.casing t.claim_at t.lease_at i (some false) none s).1
        (λ won. release_on_error-Finished k (apply_claimed env t k s') (
          apply_claimed-Finished k s'
            (subst (λ j. is_some (get_callback j s') ≡ true) id
              (claimed-is_some env.casing t.claim_at t.lease_at i (some false) none s v won))
            (subst (λ j. Here j s') id (claim-Here i s h))))
        (λ lost processed. absurd (ground arith))

  consider-Finished :
      (kind : String) (i : ℕ) (inserted : Bool) (s : VirtualGoodsStore)
      → CallbacksValid s
      → Here i s
      → Finished (consider env t kind i inserted (get_callback i s) s)
  unfolding consider
  consider-Finished kind i inserted s v h =
      if_both_with Finished (not inserted && is_processed (get_callback i s))
        (λ done success. (h, ground (arith, done)))
        (λ _.
          if_both Finished (not (is_verified (get_callback i s)))
            (λ success. absurd (ground (arith, success)))
            (claim_and_apply-Finished kind i inserted s v h))

module _ (env : Env) (t : Times) (req : Request) (payload : Payload) where
  abbrev pub family : String
  family = normalize_source_family env.casing req.source_family

  -- the row that the request is stored as, once its source family is known and it is verified
  abbrev pub stored_row : Verdict → NewCallback
  stored_row v = callback_of env t req payload family v

  -- what makes a later call find that the event is processed
  pub record Known (i : ℕ) (s : VirtualGoodsStore) : Type 0 where
    pub known_family : (family == "") ≡ false
    pub verified : Verdict
    pub has_verdict : verdict_of env t req ≡ ok verified
    pub accepted : Accepted env.casing env.upper t.insert_at (stored_row verified)
    pub located : EventAt env.casing env.upper t.insert_at (stored_row verified) i s
    pub is_done : is_processed (get_callback i s) ≡ true

  abbrev pub Applied : Reply → Type 0
  Applied (s, raised e) = Unit
  Applied (s, ok ans) = succeeds ans ≡ true → Known ans.callback_id s

  Finished-Applied :
      (v : Verdict) (r : Reply)
      → (family == "") ≡ false
      → verdict_of env t req ≡ ok v
      → Accepted env.casing env.upper t.insert_at (stored_row v)
      → Finished env t (stored_row v) r
      → Applied r
  Finished-Applied v (s, raised e) known read accepted h = tt
  Finished-Applied v (s, ok ans) known read accepted h = λ processed. record {
    known_family = known;
    verified = v;
    has_verdict = read;
    accepted = accepted;
    located = (h processed).0;
    is_done = (h processed).1;
  }

  after_insert-Applied :
      (w : Verdict) (kind : String) (r : VirtualGoodsStore × Result (ℕ × Bool))
      → (family == "") ≡ false
      → verdict_of env t req ≡ ok w
      → CallbacksValid r.0
      → Stored env.casing env.upper t.insert_at (stored_row w) r
      → Applied (after_insert env t kind r)
  after_insert-Applied w kind (s, raised e) known read v stored = tt
  after_insert-Applied w kind (s, ok (i, inserted)) known read v (accepted, located) =
      Finished-Applied w (consider env t kind i inserted (get_callback i s) s) known read accepted
        (consider-Finished env t (stored_row w) kind i inserted s v located)

  store_verified-Applied :
      (v : Result Verdict) (s : VirtualGoodsStore)
      → (family == "") ≡ false
      → verdict_of env t req ≡ v
      → CallbacksValid s
      → Applied (store_verified env t req payload family v s)
  store_verified-Applied (raised e) s known read valid = tt
  store_verified-Applied (ok w) s known read valid =
      after_insert-Applied w (normalize_event_kind env.casing req.event_kind)
        (store_callback env t req payload family w s) known read
        (insert_callback-CallbacksValid env.casing env.upper t.insert_at (stored_row w) s valid)
        (insert_callback-Stored env.casing env.upper t.insert_at (stored_row w) s)

  reject_family-Applied :
      (r : VirtualGoodsStore × Result (ℕ × Bool)) → Applied (reject_family env t r)
  reject_family-Applied (s, raised e) = tt
  reject_family-Applied (s, ok (i, inserted)) = λ processed. absurd (ground arith)

  pub process_payload-Applied :
      (s : VirtualGoodsStore) → CallbacksValid s → Applied (process_payload env t req payload s)
  unfolding process_payload
  process_payload-Applied s v =
      if_both_with Applied (family == "")
        (λ _.
          reject_family-Applied (store_callback env t req payload "unknown" (bad_family env t) s))
        (λ known. store_verified-Applied (verdict_of env t req) s known refl v)
