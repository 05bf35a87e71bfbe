-- ===== src/Tests/Equity.antt =====
-- Instances of the theorems on the marked equity of src/trading/paper.py.
use crypto_master.Prelude.{◌≡◌, refl, none, [], ◌∷◌, arith}
use crypto_master.Prelude.Int.{◌-ℤ◌}
use crypto_master.Text.{text}
use crypto_master.Dict.{Dict}
use crypto_master.Decimal.{Decimal, sum}
use crypto_master.Decimal.Exact.{fixed, fixed-IsRounding, fixed-IsExact}
use crypto_master.TradingMath.{position_pnl}
use crypto_master.Paper.Balance.{PaperBalance}
use crypto_master.Paper.Trading.{open_position, close_position, exit_fee_of}
use crypto_master.Paper.Open.{fee_taken}
use crypto_master.Paper.Equity.{unrealized_pnl, get_total_unrealized_pnl, get_total_equity}
use crypto_master.Paper.Marked.{open_position-equity, close_position-equity}
use crypto_master.Tests.Paper.{
  dec, usdt, config, funded, start, long_btc, first, opened_once, held_btc, calls,
}

abbrev prices_at : Decimal → Dict Decimal
prices_at p = (text "BTC/USDT", p) ∷ []

abbrev after_open : PaperBalance
after_open = record { currency = usdt; free = dec 9495; locked = dec 500 }

-- The total of 9995 and 2 on each of 100.
marked_equity : get_total_equity ⦃c = fixed⦄ usdt (prices_at (dec 52)) opened_once ≡ dec 10195
unfolding calls get_total_equity get_total_unrealized_pnl unrealized_pnl sum position_pnl
marked_equity = refl

open_position-equity_example :
    get_total_equity ⦃c = fixed⦄ usdt
      (prices_at (dec 50))
      (open_position ⦃c = fixed⦄ config first long_btc none (start 10000)).1
    ≡ get_total_equity ⦃c = fixed⦄ usdt (prices_at (dec 50)) (start 10000)
      -ℤ fee_taken ⦃c = fixed⦄ config long_btc
unfolding calls
open_position-equity_example =
    open_position-equity ⦃c = fixed⦄ fixed-IsExact fixed-IsRounding (prices_at (dec 50)) config
      first long_btc none (start 10000) (funded 10000 0)
      (record {
        funded = refl;
        margin_pos = omega arith;
        margin_free = omega arith;
        fee_free = omega arith;
      })
      refl refl

close_position-equity_example :
    get_total_equity ⦃c = fixed⦄ usdt
      (prices_at (dec 52))
      (close_position ⦃c = fixed⦄ config 9 (text "t1") (dec 52) (text "take_profit") opened_once).1
    ≡ get_total_equity ⦃c = fixed⦄ usdt (prices_at (dec 52)) opened_once
      -ℤ exit_fee_of ⦃c = fixed⦄ config held_btc (dec 52)
unfolding calls
close_position-equity_example =
    close_position-equity ⦃c = fixed⦄ fixed-IsExact fixed-IsRounding (prices_at (dec 52)) config 9
      (text "t1") (dec 52) (text "take_profit") opened_once held_btc after_open
      (record { held = refl; funded = refl; margin_pos = omega arith; margin_locked = omega arith })
      (refl, tt) refl refl
