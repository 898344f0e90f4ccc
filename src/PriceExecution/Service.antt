-- ===== src/PriceExecution/Service.antt =====
-- The call of the operations service in src/modules/orders/price_execution.py: which method is
-- called with which keyword arguments, and what its result is taken for. The service is not
-- modelled: a method is its signature, if `inspect` can read one, and a function on the arguments.
use realxianyu.Base.{
  ℕ, ◌≡◌, refl, ◌⊎◌, inl, inr, Bool, true, false, ◌&&◌, ◌||◌, Option, none, some, List, [], ◌∷◌,
  String, ◌==◌, string_eq, if◌then◌else◌, if_both_with, arith,
}

pub data Scope : Type 0 where
  order product : Scope

-- an amount in cents where the source passes `round(price * 100)`, and the price itself where it
-- passes a float
pub data Arg : Type 0 where
  text : String → Arg
  cents price : ℕ → Arg

abbrev pub Kwargs : Type 0
Kwargs = List (String × Arg)

-- the result of the service, as a dictionary; a missing key is `none`
pub record OpResult : Type 0 where
  pub success : Option Bool
  pub order_id : Option String
  pub order_no : Option String
  pub product_id : Option String
  pub channel : Option String
  pub action : Option String
  pub error : Option String

pub data Outcome : Type 0 where
  returned : OpResult → Outcome
  raised : String → Outcome

pub record Signature : Type 0 where
  pub accepts_var_kwargs : Bool
  pub parameters : List String

pub record Method : Type 0 where
  pub signature : Option Signature
  pub call : Kwargs → Outcome

-- `getattr` of the service: `none` where an attribute is missing; one that is there can be called
pub record OperationsService : Type 0 where
  pub modify_order_price : Option Method
  pub update_order_price : Option Method
  pub update_price : Option Method

-- Python's `str.strip` and `str.lower`
pub record Texts : Type 0 where
  pub strip : String → String
  pub lower : String → String

abbrev pub has_parameter : String → List String → Bool
has_parameter k [] = false
has_parameter k (x ∷ xs) = k == x || has_parameter k xs

abbrev pub is_subset : Kwargs → List String → Bool
is_subset [] ps = true
is_subset ((k, v) ∷ kws) ps = has_parameter k ps && is_subset kws ps

-- the first variant that the signature supports
unfoldable pub supported : Signature → List Kwargs → Option Kwargs
supported sig [] = none
supported sig (kws ∷ variants) =
    let rest = supported sig variants in
    if sig.accepts_var_kwargs || is_subset kws sig.parameters then some kws else rest

-- what a call of the service was made with, if one was made, and how it ended
abbrev pub Invoked : Type 0
Invoked = Option Kwargs × Outcome

abbrev unsupported_kwargs : String
unsupported_kwargs = "No supported parameter combination for price execution"

unfoldable pub invoke_chosen : Method → Option Kwargs → Invoked
invoke_chosen m none = (none, raised unsupported_kwargs)
invoke_chosen m (some kws) = (some kws, m.call kws)

-- `_invoke_with_supported_kwargs`, on the first variant and the others
unfoldable pub invoke_with_supported_kwargs : Method → Kwargs → List Kwargs → Invoked
unfolding supported invoke_chosen
invoke_with_supported_kwargs m first others = elim m.signature [
  | none ↦ (some first, m.call first)
  | some sig ↦ invoke_chosen m (supported sig (first ∷ others))
]

abbrev pub failure : Scope → String → String → String → OpResult
failure order order_id product_id error = record {
  success = some false;
  order_id = some order_id;
  order_no = none;
  product_id = some product_id;
  channel = some "order_price_api";
  action = some "modify_order_price";
  error = some error;
}
failure product order_id product_id error = record {
  success = some false;
  order_id = some order_id;
  order_no = none;
  product_id = some product_id;
  channel = some "product_price_api";
  action = some "edit_product_price";
  error = some error;
}

-- out.setdefault(key, value)
abbrev pub set_default {ℓ} : {A : Type ℓ} → A → Option A → Option A
set_default v none = some v
set_default v (some x) = some x

abbrev pub text_or_empty : Option String → String
text_or_empty none = ""
text_or_empty (some t) = t

-- a or b, on texts
abbrev pub or_text : Option String → String → String
or_text o d = if text_or_empty o == "" then d else text_or_empty o

-- `_normalize_result`
unfoldable pub normalize_result : Texts → OpResult → Scope → String → String → OpResult
normalize_result t out order order_id product_id =
    let raw_channel = t.lower (t.strip (text_or_empty out.channel)) in
    let raw_action = t.lower (t.strip (text_or_empty out.action)) in
    if raw_channel == "product_price_api"
      || (raw_action == "price_update" || raw_action == "edit_product_price")
    then failure order order_id product_id "product_price_result_on_order_flow"
    else record out {
      success = set_default true out.success;
      order_id = set_default (or_text out.order_no order_id) out.order_id;
      action = some "modify_order_price";
      channel = some (if raw_channel == "dom" then "dom" else "order_price_api");
    }
normalize_result t out product order_id product_id =
    let raw_channel = t.lower (t.strip (text_or_empty out.channel)) in
    let raw_action = t.lower (t.strip (text_or_empty out.action)) in
    if raw_channel == "order_price_api" || raw_action == "modify_order_price"
    then failure product order_id product_id "order_price_result_on_product_flow"
    else record out {
      success = set_default true out.success;
      product_id = set_default product_id out.product_id;
      action = some "edit_product_price";
      channel = some (if raw_channel == "dom" then "dom" else "product_price_api");
    }

-- what the service returned does not name the other flow
abbrev pub OwnFlow : Texts → Scope → OpResult → Type 0
OwnFlow t order out =
    ((t.lower (t.strip (text_or_empty out.channel)) == "product_price_api") ≡ false)
    × ((t.lower (t.strip (text_or_empty out.action)) == "price_update") ≡ false)
    × ((t.lower (t.strip (text_or_empty out.action)) == "edit_product_price") ≡ false)
OwnFlow t product out =
    ((t.lower (t.strip (text_or_empty out.channel)) == "order_price_api") ≡ false)
    × ((t.lower (t.strip (text_or_empty out.action)) == "modify_order_price") ≡ false)

set_default-success :
    (o : Option Bool) → set_default true o ≡ some true → (o ≡ none) ⊎ (o ≡ some true)
set_default-success none h = inl refl
set_default-success (some b) h = inr h

-- a result of the service that may count as a success of the flow
abbrev pub Counts : Texts → Scope → OpResult → Type 0
Counts t scope out = OwnFlow t scope out × ((out.success ≡ none) ⊎ (out.success ≡ some true))

pub not_true {ℓ} : {A : Type ℓ} → some false ≡ some true → A
not_true h = absurd (ground (arith, h))

-- A result that is normalised to a success does not name the other flow, and the service did not
-- report a failure.
pub normalize_result-Counts :
    (t : Texts) (out : OpResult) (scope : Scope) (order_id product_id : String)
    → (normalize_result t out scope order_id product_id).success ≡ some true
    → Counts t scope out
unfolding normalize_result
normalize_result-Counts t out order order_id product_id =
    if_both_with (λ (r : OpResult). r.success ≡ some true → Counts t order out) _
      (λ other h. not_true h)
      (λ own h. (
        (ground (arith, own), ground (arith, own), ground (arith, own)),
        set_default-success out.success h,
      ))
normalize_result-Counts t out product order_id product_id =
    if_both_with (λ (r : OpResult). r.success ≡ some true → Counts t product out) _
      (λ other h. not_true h)
      (λ own h. ((ground (arith, own), ground (arith, own)), set_default-success out.success h))
