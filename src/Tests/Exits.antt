-- ===== src/Tests/Exits.antt =====
-- Tests of the exits of src/trading/base.py and the prices of src/trading/strategy.py.
use crypto_master.Prelude.{◌≡◌, ◌≢◌, ◌↔◌, ◌⊎◌, refl, true, none, some}
use crypto_master.Prelude.Int.{ℤ, pos, ◌≤ℤ◌, ◌<ℤ◌}
use crypto_master.Text.{text}
use crypto_master.TradingTypes.{TradeSide, SignalSide}
use crypto_master.Exit.{
  Position, take_profit, exit_reason, exit_condition_for_position, valid, validate_prices,
  validate_leverage,
}
use crypto_master.Exit.Triggers.{
  Explains, IsOrdered, exit_condition-Explains, validate_prices-eq-valid_iff, validated_stays_open,
  validate_leverage_cases,
}

abbrev position : Position
position = record {
  symbol = text "BTC/USDT";
  side = TradeSide.long;
  entry_price = pos 100;
  quantity = pos 2;
  leverage = 1;
  stop_loss = some (pos 90);
  take_profit = some (pos 120);
}

exits_at_target : exit_condition_for_position position (pos 125) ≡ (true, some take_profit)
unfolding exit_condition_for_position
exits_at_target = refl

exit_condition-Explains_example :
    let (should_exit, reason) = exit_condition_for_position position (pos 125) in
    Explains reason TradeSide.long (some (pos 90)) (some (pos 120)) (pos 125)
    × ((should_exit ≡ true) ↔ (reason ≢ none))
exit_condition-Explains_example = exit_condition-Explains position (pos 125)

validate_prices-eq-valid_iff_example :
    (validate_prices SignalSide.short (pos 100) (pos 110) (pos 80) ≡ valid)
    ↔ IsOrdered SignalSide.short (pos 100) (pos 110) (pos 80)
validate_prices-eq-valid_iff_example =
    validate_prices-eq-valid_iff SignalSide.short (pos 100) (pos 110) (pos 80)

validated_stays_open_example :
    exit_reason TradeSide.short (some (pos 110)) (some (pos 80)) (pos 100) ≡ none
unfolding validate_prices
validated_stays_open_example =
    validated_stays_open TradeSide.short (pos 100) (pos 110) (pos 80) refl

validate_leverage_cases_example :
    ((pos 200 <ℤ pos 1) × (validate_leverage (pos 125) (pos 200) ≡ none))
    ⊎ ((l : ℤ) × (validate_leverage (pos 125) (pos 200) ≡ some l)
        × (l ≤ℤ pos 125)
        × (l ≤ℤ pos 200)
        × ((l ≡ pos 125) ⊎ (l ≡ pos 200)))
validate_leverage_cases_example = validate_leverage_cases (pos 125) (pos 200)
