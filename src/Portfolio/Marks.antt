-- ===== src/Portfolio/Marks.antt =====
-- The unrealised profit of src/trading/portfolio.py beside that of the trader in src/trading/paper.py.
use crypto_master.Prelude.{
  ◌≡◌, refl, ap, sym, ◌∙◌, inl, inr, List, [], ◌∷◌, Bool-cases, Option-cases, keep,
}
use crypto_master.Prelude.Int.{pos}
use crypto_master.Dict.{Dict, lookup}
use crypto_master.Decimal.{Decimal, Context, add, sum}
use crypto_master.Decimal.Laws.{IsRounding}
use crypto_master.TradingMath.{pnl_for_trade}
use crypto_master.TradingMath.Pnl.{position_pnl-eq-pnl_for_trade}
use crypto_master.Tracker.{paper, Trade, is_open, get_open_trades, load_trades}
use crypto_master.Paper.State.{PaperTrader}
use crypto_master.Paper.Equity.{unrealized_pnl, values, get_total_unrealized_pnl}
use crypto_master.Paper.Startup.{position_from}
use crypto_master.Paper.Sync.{restored_from}
use crypto_master.Paper.InSync.{InSync}
use crypto_master.Portfolio.{unrealized_from, calculate_unrealized_pnl}

module _ ⦃c : Context⦄ (r : IsRounding c) where
  unrealized_from-eq-sum :
      (prices : Dict Decimal) (acc : Decimal) (ts : List Trade)
      → unrealized_from prices acc (keep (λ t. is_open t.status) ts)
        ≡ sum acc (values (unrealized_pnl prices (restored_from ts)))
  unfolding unrealized_from unrealized_pnl restored_from sum position_from
  unrealized_from-eq-sum prices acc [] = refl
  unrealized_from-eq-sum prices acc (t ∷ ts) = elim (Bool-cases (is_open t.status)) [
    | inr settled ↦ rw settled (unrealized_from-eq-sum prices acc ts)
    | inl o ↦ elim (Option-cases (lookup t.symbol prices)) [
      | inl unpriced ↦
          rw (o, unrealized_from, unrealized_pnl, unpriced) (unrealized_from-eq-sum prices acc ts)
      | inr (price, priced) ↦
          rw
            (
              o,
              unrealized_from,
              unrealized_pnl,
              priced,
              position_pnl-eq-pnl_for_trade r t.side t.entry_price t.entry_quantity price,
            )
            (unrealized_from-eq-sum prices
              (add acc (pnl_for_trade t.entry_price price t.entry_quantity t.side)) ts)
    ]
  ]

  -- For a trader that agrees with its files, the portfolio's unrealised profit of the paper trades is
  -- the trader's own, at all prices and under the rounding of the context.
  pub calculate_unrealized_pnl-eq-get_total_unrealized_pnl :
      (prices : Dict Decimal) (s : PaperTrader)
      → InSync s
      → calculate_unrealized_pnl paper prices s.store ≡ get_total_unrealized_pnl prices s
  unfolding calculate_unrealized_pnl get_total_unrealized_pnl get_open_trades load_trades
  calculate_unrealized_pnl-eq-get_total_unrealized_pnl prices s i =
      unrealized_from-eq-sum prices (pos 0) s.store.paper_trades
      ∙ ap (λ ps. sum (pos 0) (values (unrealized_pnl prices ps))) (sym i.restored)
