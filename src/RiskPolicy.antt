-- ===== src/RiskPolicy.antt =====
-- src/trading/sub_account.py: the risk policy of a sub-account, and its validators.
use crypto_master.Prelude.{ℕ, Bool, true, Option, none, some, ◌&&◌, leb, is_some}
use crypto_master.Prelude.Int.{pos}
use crypto_master.Decimal.{Decimal, lt, le}

pub data SizingMode : Type 0 where
  risk_budget fixed_notional : SizingMode

pub data StaleAction : Type 0 where
  auto_close block_new_entries alert_only : StaleAction

pub record RiskPolicy : Type 0 where
  pub risk_percent : Option Decimal
  pub max_open_positions_total : Option ℕ
  pub max_open_positions_per_symbol : Option ℕ
  pub leverage_cap : Option ℕ
  pub sizing_mode : SizingMode
  pub risk_budget_pct : Option Decimal
  pub min_notional_per_trade : Option Decimal
  pub max_notional_per_trade : Option Decimal
  pub min_stop_distance_bps : Option ℕ
  pub max_gross_notional : Option Decimal
  pub max_open_stop_risk : Option Decimal
  pub max_time_in_position_hours : Option ℕ
  pub stale_position_action : Option StaleAction
  pub daily_loss_limit_pct : Option Decimal
  pub open_unrealized_drawdown_limit_pct : Option Decimal
  pub open_stop_risk_limit_pct : Option Decimal

-- `Field(default=None, gt=Decimal("0"))`
unfoldable pub positive_or_none : Option Decimal → Bool
positive_or_none none = true
positive_or_none (some a) = lt (pos 0) a

-- `Field(default=None, ge=1)`
unfoldable pub at_least_one_or_none : Option ℕ → Bool
at_least_one_or_none none = true
at_least_one_or_none (some n) = leb 1 n

-- `Field(default=None, ge=1, le=125)`
unfoldable pub leverage_or_none : Option ℕ → Bool
leverage_or_none none = true
leverage_or_none (some n) = leb 1 n && leb n 125

-- `_risk_budget_mode_requires_pct`
unfoldable pub risk_budget_has_pct : SizingMode → Option Decimal → Bool
risk_budget_has_pct risk_budget pct = is_some pct
risk_budget_has_pct fixed_notional pct = true

-- `_stale_position_action_requires_max_hours`
unfoldable pub stale_action_has_hours : Option StaleAction → Option ℕ → Bool
stale_action_has_hours none hours = true
stale_action_has_hours (some _) hours = is_some hours

-- `_notional_floor_below_ceiling`
unfoldable pub floor_below_ceiling : Option Decimal → Option Decimal → Bool
floor_below_ceiling none ceiling = true
floor_below_ceiling (some low) none = true
floor_below_ceiling (some low) (some high) = le low high

-- Whether the model accepts the fields.
unfoldable pub validate : RiskPolicy → Bool
unfolding positive_or_none at_least_one_or_none leverage_or_none risk_budget_has_pct
    stale_action_has_hours floor_below_ceiling
validate p =
    at_least_one_or_none p.max_open_positions_total
    && at_least_one_or_none p.max_open_positions_per_symbol
    && leverage_or_none p.leverage_cap
    && positive_or_none p.risk_budget_pct
    && positive_or_none p.min_notional_per_trade
    && positive_or_none p.max_notional_per_trade
    && at_least_one_or_none p.min_stop_distance_bps
    && positive_or_none p.max_gross_notional
    && positive_or_none p.max_open_stop_risk
    && at_least_one_or_none p.max_time_in_position_hours
    && positive_or_none p.daily_loss_limit_pct
    && positive_or_none p.open_unrealized_drawdown_limit_pct
    && positive_or_none p.open_stop_risk_limit_pct
    && risk_budget_has_pct p.sizing_mode p.risk_budget_pct
    && stale_action_has_hours p.stale_position_action p.max_time_in_position_hours
    && floor_below_ceiling p.min_notional_per_trade p.max_notional_per_trade
