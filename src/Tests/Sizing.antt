-- ===== src/Tests/Sizing.antt =====
-- Tests of src/trading/risk_sizing.py, in a context with twelve places.
use crypto_master.Prelude.{ℕ, ◌*◌, ◌≡◌, ◌≢◌, ◌↔◌, refl, true, none, some, arith}
use crypto_master.Prelude.Int.{pos, ◌+ℤ◌, ◌-ℤ◌, ◌*ℤ◌}
use crypto_master.Decimal.{Decimal, add, sub, mul, div}
use crypto_master.Decimal.Exact.{fixed}
use crypto_master.TradingTypes.{TradeSide}
use crypto_master.RiskPolicy.{RiskPolicy, risk_budget, validate}
use crypto_master.RiskSizing.{
  size, rejected, missing_risk_budget, stop_too_tight, compute_risk_budget_size,
}
use crypto_master.RiskSizing.Bounds.{IsAccepted}
use crypto_master.RiskSizing.Rejections.{
  loss_per_unit, compute_risk_budget_size-eq-size_iff, compute_risk_budget_size_has_budget,
}

abbrev dec : ℕ → Decimal
dec n = pos (n * 1_000_000_000_000)

-- One percent of the equity, notionals of 10 to 5000, stops of at least ten basis points.
abbrev policy : RiskPolicy
policy = record {
  risk_percent = none;
  max_open_positions_total = none;
  max_open_positions_per_symbol = none;
  leverage_cap = none;
  sizing_mode = risk_budget;
  risk_budget_pct = some (pos 10_000_000_000);
  min_notional_per_trade = some (dec 10);
  max_notional_per_trade = some (dec 5000);
  min_stop_distance_bps = some 10;
  max_gross_notional = none;
  max_open_stop_risk = none;
  max_time_in_position_hours = none;
  stale_position_action = none;
  daily_loss_limit_pct = none;
  open_unrealized_drawdown_limit_pct = none;
  open_stop_risk_limit_pct = none;
}

program : Unit {0}
unfolding add sub mul div compute_risk_budget_size validate ◌+ℤ◌ ◌-ℤ◌ ◌*ℤ◌
program = tt

policy_is_valid : validate policy ≡ true
unfolding program
policy_is_valid = refl

-- 100 of risk over 2 a unit.
sized :
    compute_risk_budget_size ⦃c = fixed⦄ (some (dec 10000)) (dec 50) (dec 48) TradeSide.long policy
    ≡ size (dec 50)
unfolding program
sized = refl

too_tight :
    compute_risk_budget_size ⦃c = fixed⦄
      (some (dec 10000))
      (dec 5000)
      (dec 4999)
      TradeSide.long
      policy
    ≡ rejected stop_too_tight
unfolding program
too_tight = refl

compute_risk_budget_size-eq-size_iff_example :
    (compute_risk_budget_size ⦃c = fixed⦄ (some (dec 10000)) (dec 50) (dec 48) TradeSide.long policy
      ≡ size (dec 50))
    ↔ IsAccepted ⦃c = fixed⦄ policy
        (dec 10000)
        (loss_per_unit ⦃c = fixed⦄ TradeSide.long (dec 50) (dec 48))
        (dec 50)
        (dec 50)
compute_risk_budget_size-eq-size_iff_example =
    compute_risk_budget_size-eq-size_iff ⦃c = fixed⦄ (dec 10000) (dec 50) (dec 48) TradeSide.long
      policy (dec 50) (omega arith)

compute_risk_budget_size_has_budget_example :
    compute_risk_budget_size ⦃c = fixed⦄ (some (dec 10000)) (dec 50) (dec 48) TradeSide.long policy
    ≢ rejected missing_risk_budget
unfolding program
compute_risk_budget_size_has_budget_example =
    compute_risk_budget_size_has_budget ⦃c = fixed⦄ (some (dec 10000)) (dec 50) (dec 48)
      TradeSide.long policy refl refl
