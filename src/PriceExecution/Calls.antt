-- ===== src/PriceExecution/Calls.antt =====
-- Which call of the operations service stands behind a success of `_execute_price_change` in
-- src/modules/orders/price_execution.py.
use realxianyu.Base.{
  ◌||◌, ◌≡◌, refl, subst, ◌⊎◌, inl, inr, true, Option, none, some, List, [], ◌∷◌, String, ◌==◌,
  nat_eq, string_eq, if_both, dict_get,
}
use realxianyu.Base.Lists.{All}
use realxianyu.PriceExecution.Service.{
  Scope, order, product, OpResult, returned, raised, Method, OperationsService, Texts, Invoked,
  Kwargs, invoke_chosen, supported, invoke_with_supported_kwargs, Counts, normalize_result-Counts,
  not_true, Signature, is_subset, text, cents, price,
}
use realxianyu.PriceExecution.Jobs.{PriceJob}
use realxianyu.PriceExecution.Execute.{
  price_scope_for, execute_price_change, change_price_in, change_order_price, change_product_price,
  change_order_with, change_product_with, normalized, first_method, order_variants,
  product_variants,
}

-- the method of the service that changes a price in a flow: the first of two for an order
abbrev pub IsMethod : OperationsService → Scope → Method → Type 0
IsMethod svc order m =
    (svc.modify_order_price ≡ some m)
    ⊎ ((svc.modify_order_price ≡ none) × (svc.update_order_price ≡ some m))
IsMethod svc product m = svc.update_price ≡ some m

-- arguments that name the order or the product of the job, and its target price
abbrev pub Carries : Texts → PriceJob → Scope → Kwargs → Type 0
Carries t j order args =
    ((dict_get "order_id" args ≡ some (text (t.strip j.order_id)))
      ⊎ (dict_get "order_no" args ≡ some (text (t.strip j.order_id))))
    × ((dict_get "order_price" args ≡ some (cents j.target_price))
        ⊎ (dict_get "new_price" args ≡ some (price j.target_price)))
Carries t j product args =
    ((dict_get "product_id" args ≡ some (text (t.strip j.product_id)))
      ⊎ (dict_get "pid" args ≡ some (text (t.strip j.product_id))))
    × ((dict_get "new_price" args ≡ some (price j.target_price))
        ⊎ (dict_get "price" args ≡ some (cents j.target_price))
        ⊎ (dict_get "price" args ≡ some (price j.target_price)))

-- the call that stands behind a success
pub record Confirmed (t : Texts) (j : PriceJob) (scope : Scope) (M : Method → Type 0)
    (k : Option Kwargs) : Type 0 where
  pub method : Method
  pub right_method : M method
  pub arguments : Kwargs
  pub made : k ≡ some arguments
  pub carries : Carries t j scope arguments
  pub answer : OpResult
  pub answered : method.call arguments ≡ returned answer
  pub counts : Counts t scope answer

abbrev pub Successes : Texts → PriceJob → Scope → (Method → Type 0) → Invoked → Type 0
Successes t j scope M (k, raised e) = Unit
Successes t j scope M (k, returned r) = r.success ≡ some true → Confirmed t j scope M k

-- what the method was called with, if it was, has the property, and the outcome is its answer
abbrev Called : (Kwargs → Type 0) → Method → Invoked → Type 0
Called P m (none, returned r) = ⊥
Called P m (none, raised e) = Unit
Called P m (some kws, o) = P kws × (m.call kws ≡ o)

module _ (P : Kwargs → Type 0) (m : Method) where
  invoke_chosen-supported :
      (sig : Signature) (variants : List Kwargs)
      → All P variants
      → Called P m (invoke_chosen m (supported sig variants))
  unfolding invoke_chosen supported
  invoke_chosen-supported sig [] h = tt
  invoke_chosen-supported sig (kws ∷ variants) h =
      if_both (λ (chosen : Option Kwargs). Called P m (invoke_chosen m chosen))
        (sig.accepts_var_kwargs || is_subset kws sig.parameters) (h.0, refl)
        (invoke_chosen-supported sig variants h.1)

  invoke-Called :
      (first : Kwargs) (others : List Kwargs)
      → All P (first ∷ others)
      → Called P m (invoke_with_supported_kwargs m first others)
  unfolding invoke_with_supported_kwargs
  invoke-Called first others h =
      elim m.signature
        as (λ sig. Called P m (elim sig [
          | none ↦ (some first, m.call first)
          | some sig' ↦ invoke_chosen m (supported sig' (first ∷ others))
        ])) [ none ↦ (h.0, refl) | some sig ↦ invoke_chosen-supported sig (first ∷ others) h ]

normalized-Successes :
    (t : Texts) (j : PriceJob) (scope : Scope) (M : Method → Type 0) (o p : String) (m : Method)
    (v : Invoked)
    → M m
    → Called (Carries t j scope) m v
    → Successes t j scope M (normalized t scope o p v)
normalized-Successes t j scope M o p m (none, returned out) right called = absurd called
normalized-Successes t j scope M o p m (some kws, returned out) right called = λ success. record {
  method = m;
  right_method = right;
  arguments = kws;
  made = refl;
  carries = called.0;
  answer = out;
  answered = called.1;
  counts = normalize_result-Counts t out scope o p success;
}
normalized-Successes t j scope M o p m (k, raised e) right called = tt

change_order_with-Successes :
    (t : Texts) (j : PriceJob) (M : Method → Type 0) (m : Option Method)
    → ((m' : Method) → m ≡ some m' → M m')
    → Successes t j order M (change_order_with t j m)
unfolding change_order_with dict_get
change_order_with-Successes t j M none right = not_true
change_order_with-Successes t j M (some m) right =
    let o = t.strip j.order_id in
    if_both (Successes t j order M) (o == "") not_true (
      normalized-Successes t j order M o (t.strip j.product_id) m _ (right m refl) (
        invoke-Called (Carries t j order) m
          (("order_no", text o) ∷ ("order_price", cents j.target_price) ∷ []) (order_variants o j)
          (
            (inr refl, inl refl),
            ((inl refl, inl refl), ((inl refl, inr refl), ((inr refl, inr refl), tt))),
          )))

change_product_with-Successes :
    (t : Texts) (j : PriceJob) (M : Method → Type 0) (m : Option Method)
    → ((m' : Method) → m ≡ some m' → M m')
    → Successes t j product M (change_product_with t j m)
unfolding change_product_with dict_get
change_product_with-Successes t j M none right = not_true
change_product_with-Successes t j M (some m) right =
    let p = t.strip j.product_id in
    if_both (Successes t j product M) (p == "") not_true (
      normalized-Successes t j product M (t.strip j.order_id) p m _ (right m refl) (
        invoke-Called (Carries t j product) m
          (("product_id", text p)
            ∷ ("new_price", price j.target_price)
            ∷ ("original_price", price j.from_price)
            ∷ [])
          (product_variants p j)
          (
            (inl refl, inl refl),
            ((inl refl, inr (inl refl)), ((inr refl, inl refl), ((inr refl, inr (inr refl)), tt))),
          )))

first_method-IsMethod :
    (a b : Option Method) (m : Method)
    → first_method a b ≡ some m
    → (a ≡ some m) ⊎ ((a ≡ none) × (b ≡ some m))
first_method-IsMethod none b m h = inr (refl, h)
first_method-IsMethod (some a) b m h = inl h

change_price_in-Successes :
    (t : Texts) (svc : OperationsService) (j : PriceJob) (scope : Scope)
    → Successes t j scope (IsMethod svc scope) (change_price_in t svc j scope)
unfolding change_price_in change_order_price change_product_price
change_price_in-Successes t svc j order =
    change_order_with-Successes t j (IsMethod svc order) _
      (first_method-IsMethod svc.modify_order_price svc.update_order_price)
change_price_in-Successes t svc j product =
    change_product_with-Successes t j (IsMethod svc product) svc.update_price (λ m h. h)

-- When `_execute_price_change` reports a success, it has called the method of the job's own flow,
-- modify_order_price or in its place update_order_price for an order, update_price for a product, with
-- arguments that name the job's order or product and its target price. The answer of that call
-- reports no failure and names neither the channel nor an action of the other flow: no change of a
-- product's price is taken for one of an order's price, nor the reverse.
pub execute_price_change-Confirmed :
    (t : Texts) (svc : OperationsService) (j : PriceJob) (k : Option Kwargs) (r : OpResult)
    → execute_price_change t svc j ≡ (k, returned r)
    → r.success ≡ some true
    → Confirmed t j (price_scope_for t j) (IsMethod svc (price_scope_for t j)) k
unfolding execute_price_change
execute_price_change-Confirmed t svc j k r e =
    let scope = price_scope_for t j in
    subst (Successes t j scope (IsMethod svc scope)) e (change_price_in-Successes t svc j scope)
