-- ===== src/PriceExecution/Decision.antt =====
-- `decide_target_price` of src/modules/orders/price_execution.py. Prices are whole cents, as
-- `round(x, 2)` makes them.
use realxianyu.Base.{ℕ, ◌≤◌, ◌≡◌, max, min, arith, leb, ◌==◌, nat_eq, if◌then◌else◌}

pub data Reason : Type 0 where
  buyer_offer_not_lower respect_floor_price accept_offer : Reason

pub record Decision : Type 0 where
  pub from_price : ℕ
  pub buyer_offer_price : ℕ
  pub min_price : ℕ
  pub target_price : ℕ
  pub reason : Reason

unfoldable pub decide_target_price : ℕ → ℕ → ℕ → Decision
decide_target_price fp bp mp =
    let target = if leb fp bp then fp else max bp mp in
    record {
      from_price = fp;
      buyer_offer_price = bp;
      min_price = mp;
      target_price = target;
      reason =
          if leb fp bp
          then buyer_offer_not_lower
          else if target == mp
          then respect_floor_price
          else accept_offer;
    }

-- If the floor is not above the asking price, the target lies between the two, and it is the offer
-- clamped to them: never above the asking price, never below the floor, and the offer if it fits.
pub decide_target_price-clamp :
    (fp bp mp : ℕ)
    → mp ≤ fp
    → let d = decide_target_price fp bp mp in
      (mp ≤ d.target_price) × (d.target_price ≤ fp) × (d.target_price ≡ min fp (max bp mp))
unfolding decide_target_price
decide_target_price-clamp fp bp mp h = ground arith
