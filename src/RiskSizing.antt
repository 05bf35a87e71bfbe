-- ===== src/RiskSizing.antt =====
-- src/trading/risk_sizing.py: the size of a trade under a risk budget. The free-form messages and
-- details of a rejection are left out.
pub mod Rejections
pub mod Bounds
use crypto_master.Prelude.{ℕ, zero, suc, Bool, Option, none, some, if◌then◌else◌}
use crypto_master.Prelude.Int.{pos, negsuc}
use crypto_master.Decimal.{Decimal, Context, sub, mul, div, lt, le, eq, literal}
use crypto_master.TradingTypes.{TradeSide}
use crypto_master.RiskPolicy.{RiskPolicy}

-- `RiskSizingRejectionReason`
pub data Reason : Type 0 where
  missing_equity missing_risk_budget invalid_stop_distance stop_too_tight : Reason
  below_min_notional : Reason

-- The quantity, a rejection, or Python's `DivisionByZero`.
pub data Sizing : Type 0 where
  size : Decimal → Sizing
  rejected : Reason → Sizing
  division_by_zero : Sizing

module _ ⦃c : Context⦄ where
  -- A quotient in the middle of the function: a zero divisor raises.
  abbrev pub divided : Decimal → Decimal → (Decimal → Sizing) → Sizing
  divided a b k = if eq b (pos 0) then division_by_zero else k (div a b)

  unfoldable pub risk_per_unit : TradeSide → Decimal → Decimal → Decimal
  risk_per_unit TradeSide.long entry_price stop_loss_price = sub entry_price stop_loss_price
  risk_per_unit TradeSide.short entry_price stop_loss_price = sub stop_loss_price entry_price

  -- The floor on the notional.
  unfoldable pub above_floor : Option Decimal → Decimal → Decimal → Sizing
  above_floor none notional quantity = size quantity
  above_floor (some floor) notional quantity =
      if lt notional floor then rejected below_min_notional else size quantity

  -- The ceiling on the notional, then the floor.
  unfoldable pub clamped : Option Decimal → Option Decimal → Decimal → Decimal → Sizing
  unfolding above_floor
  clamped none floor entry_price quantity = above_floor floor (mul quantity entry_price) quantity
  clamped (some ceiling) floor entry_price quantity =
      if lt ceiling (mul quantity entry_price)
      then divided ceiling entry_price (λ q. above_floor floor (mul q entry_price) q)
      else above_floor floor (mul quantity entry_price) quantity

  -- `min_stop_distance_bps`: the stop is tighter than the floor.
  unfoldable pub stop_checked : Option ℕ → Decimal → Decimal → Sizing → Sizing
  stop_checked none risk entry_price rest = rest
  stop_checked (some floor) risk entry_price rest = divided risk entry_price (λ share.
      if lt (mul share (literal 10000 1)) (literal floor 1) then rejected stop_too_tight else rest)

  -- From the sign of the risk on.
  unfoldable pub budgeted : RiskPolicy → Decimal → Decimal → Decimal → Decimal → Sizing
  unfolding clamped stop_checked
  budgeted policy equity pct risk entry_price =
      if le risk (pos 0)
      then rejected invalid_stop_distance
      else stop_checked policy.min_stop_distance_bps risk entry_price (
          clamped policy.max_notional_per_trade policy.min_notional_per_trade entry_price
            (div (mul equity pct) risk))

  unfoldable pub with_equity : RiskPolicy → Decimal → Option Decimal → Decimal → Decimal → Sizing
  unfolding budgeted
  with_equity policy equity none risk entry_price = rejected missing_risk_budget
  with_equity policy equity (some pct) risk entry_price =
      budgeted policy equity pct risk entry_price

  unfoldable pub compute_risk_budget_size :
      Option Decimal → Decimal → Decimal → TradeSide → RiskPolicy → Sizing
  unfolding with_equity risk_per_unit
  compute_risk_budget_size none entry_price stop_loss_price side policy = rejected missing_equity
  compute_risk_budget_size (some equity) entry_price stop_loss_price side policy =
      if le equity (pos 0)
      then rejected missing_equity
      else with_equity policy equity policy.risk_budget_pct
          (risk_per_unit side entry_price stop_loss_price) entry_price
