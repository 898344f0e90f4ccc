-- ===== src/VirtualGoods/Process/Released.antt =====
-- `process` of src/modules/virtual_goods/callbacks.py leaves no lease behind and keeps the callback
-- table valid.
use realxianyu.Base.{
  ℕ, ◌≡◌, refl, Bool, true, false, not, ◌&&◌, Option, none, some, String, arith, string_eq, nat_eq,
  nat_beq_iff, Option-cases, inl, inr, if_both, if_both_with, Casing, subst, sym,
}
use realxianyu.Base.Result.{ok, raised}
use realxianyu.Base.Lists.{All, All-append}
use realxianyu.Base.Table.{find_where, exists_where}
use realxianyu.Base.Table.Laws.{All-update_where, find_where_holds}
use realxianyu.VirtualGoods.Status.{OrderStatus}
use realxianyu.VirtualGoods.Rows.{Callback, VirtualGoodsStore}
use realxianyu.VirtualGoods.Callbacks.{
  NewCallback, insert_row, insert_callback, conflicts, event_key, family_of, kind_of, stored_kind,
}
use realxianyu.VirtualGoods.Callbacks.Lease.{
  has_callback_id, is_claimable, claim_callback_lease, get_callback, mark_callback_processed,
}
use realxianyu.VirtualGoods.Callbacks.Invariant.{
  CallbacksValid, insert_callback-CallbacksValid, insert_callback-keeps, SameTables,
  claim_callback_lease-CallbacksValid, mark_callback_processed-CallbacksValid,
}
use realxianyu.VirtualGoods.Callbacks.Leases.{claim_callback_lease_failed}
use realxianyu.VirtualGoods.Process.Cases.{
  notify_failed-SameTables, apply_claimed-cases, process-cases,
}
use realxianyu.VirtualGoods.Process.{
  process, claim_and_apply, claimed_of, release_on_error, apply_claimed, notify_failed,
}
use realxianyu.VirtualGoods.Process.Types.{Env, Times, Request, Reply, Claimed}

-- no lease is held on the callback
abbrev pub Free : Callback → Type 0
Free r = r.claim_expires_at ≡ none

abbrev pub AllFree : VirtualGoodsStore → Type 0
AllFree s = All Free s.callbacks

-- no lease is held, but perhaps on the callback `i`
abbrev FreeBut : ℕ → VirtualGoodsStore → Type 0
FreeBut i s = All (λ r. has_callback_id i r ≡ false → Free r) s.callbacks

AllFree-mark_callback_processed :
    (now i : ℕ) (processed : Bool) (last_error : String) (s : VirtualGoodsStore)
    → FreeBut i s
    → AllFree (mark_callback_processed now i processed last_error s)
unfolding mark_callback_processed
AllFree-mark_callback_processed now i processed last_error s h =
    All-update_where (λ r. has_callback_id i r ≡ false → Free r) Free (has_callback_id i) _
      s.callbacks (λ r _ _. refl) (λ r k miss. k miss) h

FreeBut-claim_callback_lease :
    (c : Casing) (now later i : ℕ) (filter : Option Bool) (claimer : Option String)
    (s : VirtualGoodsStore)
    → AllFree s
    → FreeBut i (claim_callback_lease c now later i filter claimer s).0
unfolding claim_callback_lease
FreeBut-claim_callback_lease c now later i filter claimer s h =
    All-update_where Free (λ r. has_callback_id i r ≡ false → Free r)
      (λ r. has_callback_id i r && is_claimable now filter r) _ s.callbacks
      (λ r k hit miss. ground arith) (λ r k _ _. k) h

AllFree-insert_row :
    (now : ℕ) (ext ded : Option String) (family kind : String) (a : NewCallback)
    (s : VirtualGoodsStore)
    → AllFree s
    → AllFree (insert_row now ext ded family kind a s).0
unfolding insert_row
AllFree-insert_row now ext ded family kind a s h =
    if_both (λ (r : VirtualGoodsStore × ℕ × Bool). AllFree r.0)
      (exists_where (conflicts ext ded) s.callbacks) h (All-append Free s.callbacks _ h (refl, tt))

-- the callback that is read back after a claim has the id that was claimed
pub claimed_of-id :
    (env : Env) (t : Times) (i : ℕ) (kind : String) (duplicate : Bool) (s : VirtualGoodsStore)
    → (claimed_of env t i kind duplicate (get_callback i s)).callback_id ≡ i
unfolding get_callback
claimed_of-id env t i kind duplicate s =
    elim (Option-cases (find_where (has_callback_id i) s.callbacks)) [
      | inl e ↦ rw e refl
      | inr (r, e) ↦
          rw e ((nat_beq_iff r.id i).0 (find_where_holds (has_callback_id i) s.callbacks e))
    ]

-- a valid table without leases
abbrev pub Idle : VirtualGoodsStore → Type 0
Idle s = CallbacksValid s × AllFree s

-- a valid table, where an exception may have left the lease of `i`
abbrev Left : ℕ → Reply → Type 0
Left i (s, ok a) = Idle s
Left i (s, raised e) = CallbacksValid s × FreeBut i s

module _ (env : Env) (t : Times) where
  marked-Idle :
      (i : ℕ) (processed : Bool) (last_error : String) (s : VirtualGoodsStore)
      → CallbacksValid s × FreeBut i s
      → Idle (mark_callback_processed t.mark_at i processed last_error s)
  marked-Idle i processed last_error s (v, h) = (
    mark_callback_processed-CallbacksValid env.casing s v t.mark_at i processed last_error,
    AllFree-mark_callback_processed t.mark_at i processed last_error s h,
  )

  notify_failed-Left :
      (k : Claimed) (next : OrderStatus) (s : VirtualGoodsStore)
      → CallbacksValid s × FreeBut k.callback_id s
      → let s' = notify_failed env t k next s in CallbacksValid s' × FreeBut k.callback_id s'
  notify_failed-Left k next s h =
      let same = notify_failed-SameTables env t k next s in
      rw (SameTables.same_callbacks same, SameTables.same_next same) h

  apply_claimed-Left :
      (k : Claimed) (s : VirtualGoodsStore)
      → CallbacksValid s × FreeBut k.callback_id s
      → Left k.callback_id (apply_claimed env t k s)
  apply_claimed-Left k s h =
      apply_claimed-cases env t k s (Left k.callback_id)
        (λ reason a _. marked-Idle k.callback_id false reason s h) (λ e. h)
        (λ next st f cb _ _. marked-Idle k.callback_id true "" _ (notify_failed-Left k next _ h))

  release_on_error-Idle :
      (k : Claimed) (r : Reply) → Left k.callback_id r → Idle (release_on_error env t k r).0
  release_on_error-Idle k (s, ok a) h = h
  release_on_error-Idle k (s, raised e) h = marked-Idle k.callback_id false (env.str_exc e) s h

  claim_and_apply-Idle :
      (kind : String) (i : ℕ) (inserted : Bool) (s : VirtualGoodsStore)
      → Idle s
      → Idle (claim_and_apply env t kind i inserted s).0
  unfolding claim_and_apply
  claim_and_apply-Idle kind i inserted s (v, h) =
      let s' = (claim_callback_lease env.casing t.claim_at t.lease_at i (some false) none s).0 in
      let k = claimed_of env t i kind (not inserted) (get_callback i s') in
      let left : CallbacksValid s' × FreeBut k.callback_id s' = (
        claim_callback_lease-CallbacksValid env.casing s v t.claim_at t.lease_at i (some false)
            none,
        subst (λ j. FreeBut j s') (sym (claimed_of-id env t i kind (not inserted) s'))
            (FreeBut-claim_callback_lease env.casing t.claim_at t.lease_at i (some false) none s h),
      ) in
      if_both_with (λ (r : Reply). Idle r.0)
        (claim_callback_lease env.casing t.claim_at t.lease_at i (some false) none s).1
        (λ won. release_on_error-Idle k (apply_claimed env t k s') (apply_claimed-Left k s' left))
        (λ lost.
          subst Idle
            (sym (
              claim_callback_lease_failed env.casing s v t.claim_at t.lease_at i (some false) none
                lost))
            (v, h))

  insert_callback-Idle :
      (a : NewCallback) (s : VirtualGoodsStore)
      → Idle s
      → Idle (insert_callback env.casing env.upper t.insert_at a s).0
  insert_callback-Idle a s (v, h) = (
    insert_callback-CallbacksValid env.casing env.upper t.insert_at a s v,
    insert_callback-keeps env.casing env.upper t.insert_at a s AllFree
        (λ s' t' e k. rw (SameTables.same_callbacks e) k) h
        (AllFree-insert_row t.insert_at (event_key env.casing a.external_event_id)
          (event_key env.casing a.dedupe_key) (family_of env.casing a)
          (stored_kind (kind_of env.casing a)) a s h),
  )

  -- A call of `process` on a valid callback table without leases leaves such a table, whether it
  -- returns or raises: whatever lease it took is released, and the event is stored at most once.
  pub process-Idle : (req : Request) (s : VirtualGoodsStore) → Idle s → Idle (process env t req s).0
  process-Idle req s h =
      process-cases env t req s (λ r. Idle r.0) Idle h (λ a. insert_callback-Idle a s h)
        (λ s' e h'. h') (λ s' a h' _. h')
        (λ s' kind i inserted h'. claim_and_apply-Idle kind i inserted s' h')
