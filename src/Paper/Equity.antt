-- ===== src/Paper/Equity.antt =====
-- The marked profit and equity of `PaperTrader` in src/trading/paper.py. `None` for the prices is the
-- empty dict, which the code treats alike.
use crypto_master.Prelude.{Option, none, some, List, [], ◌∷◌}
use crypto_master.Prelude.Int.{pos}
use crypto_master.Text.{Text}
use crypto_master.Dict.{Dict, lookup}
use crypto_master.Decimal.{Decimal, Context, add, sum}
use crypto_master.TradingMath.{position_pnl}
use crypto_master.Paper.Balance.{PaperBalance, total}
use crypto_master.Paper.State.{OpenPosition, PaperTrader}

module _ ⦃c : Context⦄ where
  abbrev pub profit_at : OpenPosition → Decimal → Decimal
  profit_at o price = position_pnl o.position.side o.position.entry_price o.position.quantity price

  -- One turn of the loop of `update_unrealized_pnl`.
  abbrev pub with_profit : Text → OpenPosition → Option Decimal → Dict Decimal → Dict Decimal
  with_profit k o none rest = rest
  with_profit k o (some price) rest = (k, profit_at o price) ∷ rest

  -- `update_unrealized_pnl`
  unfoldable pub unrealized_pnl : Dict Decimal → Dict OpenPosition → Dict Decimal
  unrealized_pnl prices [] = []
  unrealized_pnl prices ((k, o) ∷ ps) =
      with_profit k o (lookup o.position.symbol prices) (unrealized_pnl prices ps)

  abbrev pub values : Dict Decimal → List Decimal
  values [] = []
  values ((k, v) ∷ d) = v ∷ values d

  unfoldable pub get_total_unrealized_pnl : Dict Decimal → PaperTrader → Decimal
  unfolding unrealized_pnl
  get_total_unrealized_pnl prices s = sum (pos 0) (values (unrealized_pnl prices s.open_positions))

  abbrev pub with_unrealized : Dict Decimal → PaperTrader → Decimal → Decimal
  with_unrealized [] s equity = equity
  with_unrealized (p ∷ ps) s equity = add equity (get_total_unrealized_pnl (p ∷ ps) s)

  abbrev pub equity_of : Dict Decimal → PaperTrader → Option PaperBalance → Decimal
  equity_of prices s none = pos 0
  equity_of prices s (some b) = with_unrealized prices s (total b)

  unfoldable pub get_total_equity : Text → Dict Decimal → PaperTrader → Decimal
  unfolding get_total_unrealized_pnl
  get_total_equity currency prices s = equity_of prices s (lookup currency s.balances)
