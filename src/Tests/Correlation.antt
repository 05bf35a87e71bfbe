-- ===== src/Tests/Correlation.antt =====
-- Tests of src/runtime/correlation_governor.py, in a context with twelve places.
use crypto_master.Prelude.{
  ℕ, ◌≡◌, refl, Bool, true, false, not, ◌&&◌, ◌||◌, none, some, List, [], ◌∷◌, ltb, map, length,
}
use crypto_master.Text.{Text, text}
use crypto_master.Decimal.{sum}
use crypto_master.Decimal.Exact.{fixed}
use crypto_master.TradingTypes.{TradeSide}
use crypto_master.Correlation.Exposures.{
  CorrelationExposure, runtime, from_trade_history, exposure_of, strategy_of, for_symbol,
  for_sub_account, open_only,
}
use crypto_master.Correlation.Groups.{
  before, insert_sorted, sorted, distinct, append_to, group_from,
}
use crypto_master.Correlation.Gate.{
  CorrelationGateConfig, excessive_duplicate, advisory_only, no_duplicate, distinct_sub_accounts,
  exposure_ids, warnings_of, total_notional, symbol_side_warnings, strategy_symbol_side_warnings,
  compute_duplicate_exposure_warnings, decide, evaluate_correlation_gate,
}
use crypto_master.Correlation.Decision.{
  symbol_side_accounts, strategy_accounts, evaluate_correlation_gate-allowed,
}
use crypto_master.Tests.Paper.{dec, calls}
use crypto_master.Tests.Tracker.{t1}

abbrev exposure : Text → Text → TradeSide → CorrelationExposure
exposure id account side = record {
  source = runtime;
  exposure_id = id;
  sub_account_id = account;
  strategy_id = text "s";
  symbol = text "BTC/USDT";
  side = side;
  opened_at = 1;
  closed_at = none;
  entry_price = dec 50;
  quantity = dec 2;
  notional = dec 100;
  pnl = none;
}

abbrev existing : List CorrelationExposure
existing =
    exposure (text "e1") (text "b") TradeSide.long
    ∷ exposure (text "e2") (text "a") TradeSide.short
    ∷ []

abbrev candidate : CorrelationExposure
candidate = exposure (text "e3") (text "a") TradeSide.long

abbrev strict : Bool → ℕ → CorrelationGateConfig
strict on limit = record {
  enabled = on;
  warning_policy = record {
    max_sub_accounts_per_symbol_side = limit;
    max_sub_accounts_per_strategy_symbol_side = limit;
  };
}

gate : Unit {0}
unfolding calls sum before insert_sorted sorted distinct append_to group_from distinct_sub_accounts
    exposure_ids warnings_of total_notional symbol_side_warnings strategy_symbol_side_warnings
    compute_duplicate_exposure_warnings decide evaluate_correlation_gate
gate = tt

-- Two accounts are long: over a limit of one, within a limit of two.
decisions :
    ((evaluate_correlation_gate ⦃c = fixed⦄ existing candidate (strict true 1)).reason
      ≡ excessive_duplicate)
    × ((evaluate_correlation_gate ⦃c = fixed⦄ existing candidate (strict false 1)).reason
        ≡ advisory_only)
    × ((evaluate_correlation_gate ⦃c = fixed⦄ existing candidate (strict true 2)).reason
        ≡ no_duplicate)
unfolding gate
decisions = (refl, refl, refl)

warned_accounts :
    map
      (λ w. w.sub_account_ids)
      (evaluate_correlation_gate ⦃c = fixed⦄ existing candidate (strict true 1)).warnings
    ≡ (text "a" ∷ text "b" ∷ []) ∷ (text "a" ∷ text "b" ∷ []) ∷ []
unfolding gate
warned_accounts = refl

queries :
    (length (for_symbol (text "ETH/USDT") existing) ≡ 0)
    × (length (for_sub_account (text "a") existing) ≡ 1)
    × (length (open_only existing) ≡ 2)
unfolding calls for_symbol for_sub_account open_only
queries = (refl, refl, refl)

-- A trade with no entry for its id or its record.
strategy_of_trade :
    map (λ e. e.strategy_id) (from_trade_history ⦃c = fixed⦄ (t1 ∷ []) (some []))
    ≡ text "unknown" ∷ []
unfolding calls from_trade_history exposure_of strategy_of
strategy_of_trade = refl

evaluate_correlation_gate-allowed_example :
    (evaluate_correlation_gate ⦃c = fixed⦄ existing candidate (strict true 1)).allowed
    ≡ not (
        true
        && (ltb 1 (symbol_side_accounts existing candidate)
            || ltb 1 (strategy_accounts existing candidate)))
unfolding calls
evaluate_correlation_gate-allowed_example =
    evaluate_correlation_gate-allowed ⦃c = fixed⦄ existing candidate (strict true 1)
      (refl, (refl, tt))
