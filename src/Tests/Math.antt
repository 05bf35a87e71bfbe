-- ===== src/Tests/Math.antt =====
-- Tests of src/utils/trading_math.py, in a context with twelve places.
use crypto_master.Prelude.{ℕ, ◌*◌, ◌≤◌, ◌≡◌, ◌⊎◌, refl, List, [], ◌∷◌, none, some, arith, length}
use crypto_master.Prelude.Int.{pos, negsuc, ◌+ℤ◌, ◌-ℤ◌, ◌*ℤ◌, ◌≤ℤ◌}
use crypto_master.Text.{same, text}
use crypto_master.Dict.{lookup}
use crypto_master.Decimal.{Decimal, add, sub, mul, div, neg, abs, max, sum}
use crypto_master.Decimal.Exact.{fixed, fixed-IsRounding}
use crypto_master.TradingTypes.{TradeSide}
use crypto_master.TradingMath.{
  Candle, bad_period, too_few, average, tf_pct, tf_floor_distance, atr_floor_distance,
  floor_distance, enforce_sl_floor, compute_atr, pnl_for_trade, position_pnl,
}
use crypto_master.TradingMath.Floor.{enforce_sl_floor_never_tightens, enforce_sl_floor_meets_floor}
use crypto_master.TradingMath.TrueRange.{compute_atr_cases}
use crypto_master.TradingMath.Pnl.{position_pnl-eq-pnl_for_trade}

-- `n` units of the context.
abbrev dec : ℕ → Decimal
dec n = pos (n * 1_000_000_000_000)

program : Unit {0}
unfolding same lookup add sub mul div neg abs max sum tf_pct tf_floor_distance atr_floor_distance
    floor_distance enforce_sl_floor compute_atr pnl_for_trade position_pnl ◌+ℤ◌ ◌-ℤ◌ ◌*ℤ◌
program = tt

-- A stop of 1 on an entry of 1000 on the hourly chart is widened to the floor of 0.8 %.
widened_stop :
    enforce_sl_floor ⦃c = fixed⦄ TradeSide.long (dec 1000) (dec 999) (text "1h") none ≡ dec 992
unfolding program
widened_stop = refl

-- The average true range is wider: 1.5 times 10.
atr_stop :
    enforce_sl_floor ⦃c = fixed⦄ TradeSide.short (dec 1000) (dec 1001) (text "1h") (some (dec 10))
    ≡ dec 1015
unfolding program
atr_stop = refl

abbrev candle : ℕ → ℕ → ℕ → Candle
candle h l c = record { high = dec h; low = dec l; close = dec c }

abbrev candles : List Candle
candles = candle 10 8 9 ∷ candle 12 9 11 ∷ candle 13 10 12 ∷ candle 20 11 12 ∷ []

-- True ranges 3, 3 and 9 over a period of 2: (3 * 1 + 9) / 2.
atr_of_candles : compute_atr ⦃c = fixed⦄ candles (pos 2) ≡ average (dec 6)
unfolding program
atr_of_candles = refl

enforce_sl_floor_never_tightens_example :
    enforce_sl_floor ⦃c = fixed⦄ TradeSide.long (dec 1000) (dec 999) (text "1h") none ≤ℤ dec 999
enforce_sl_floor_never_tightens_example =
    enforce_sl_floor_never_tightens ⦃c = fixed⦄ fixed-IsRounding TradeSide.long (dec 1000) (dec 999)
      (text "1h") none refl

enforce_sl_floor_meets_floor_example :
    let result =
      enforce_sl_floor ⦃c = fixed⦄ TradeSide.long (dec 1000) (dec 999) (text "1h") none in
    (tf_floor_distance ⦃c = fixed⦄ (dec 1000) (text "1h")
      ≤ℤ abs ⦃c = fixed⦄ (sub ⦃c = fixed⦄ (dec 1000) result))
    × (atr_floor_distance ⦃c = fixed⦄ none ≤ℤ abs ⦃c = fixed⦄ (sub ⦃c = fixed⦄ (dec 1000) result))
    × (enforce_sl_floor ⦃c = fixed⦄ TradeSide.long (dec 1000) result (text "1h") none ≡ result)
unfolding program
enforce_sl_floor_meets_floor_example =
    enforce_sl_floor_meets_floor ⦃c = fixed⦄ fixed-IsRounding TradeSide.long (dec 1000) (dec 999)
      (text "1h") none (omega arith) refl refl

compute_atr_cases_example :
    (compute_atr ⦃c = fixed⦄ candles (pos 0) ≡ bad_period)
    × (compute_atr ⦃c = fixed⦄ candles (negsuc 1) ≡ bad_period)
    × (((length candles ≤ 2) × (compute_atr ⦃c = fixed⦄ candles (pos 2) ≡ too_few))
        ⊎ ((a : Decimal) × (3 ≤ length candles)
            × (compute_atr ⦃c = fixed⦄ candles (pos 2) ≡ average a)
            × (pos 0 ≤ℤ a)))
compute_atr_cases_example = compute_atr_cases ⦃c = fixed⦄ fixed-IsRounding candles 1

position_pnl-eq-pnl_for_trade_example :
    position_pnl ⦃c = fixed⦄ TradeSide.short (dec 100) (dec 2) (dec 90)
    ≡ pnl_for_trade ⦃c = fixed⦄ (dec 100) (dec 90) (dec 2) TradeSide.short
position_pnl-eq-pnl_for_trade_example =
    position_pnl-eq-pnl_for_trade ⦃c = fixed⦄ fixed-IsRounding TradeSide.short (dec 100) (dec 2)
      (dec 90)
