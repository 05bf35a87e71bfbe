-- ===== src/Tests/Portfolio.antt =====
-- Tests and instances for src/trading/portfolio.py.
use crypto_master.Prelude.{
  ◌≡◌, refl, Bool-cases, inl, subst, none, some, inr, [], ◌∷◌, ◌++◌, ◌&&◌, arith, if◌then◌else◌,
}
use crypto_master.Prelude.Int.{pos, ◌+ℤ◌, ◌-ℤ◌}
use crypto_master.Text.{text, same}
use crypto_master.Dict.{Dict, lookup}
use crypto_master.Decimal.{Decimal}
use crypto_master.Decimal.Exact.{fixed, fixed-IsRounding, fixed-IsExact}
use crypto_master.Tracker.{paper}
use crypto_master.Paper.Balance.{PaperBalance, total}
use crypto_master.Paper.State.{OpenPosition}
use crypto_master.Paper.Equity.{unrealized_pnl, get_total_unrealized_pnl}
use crypto_master.Portfolio.{
  SnapshotFiles, load_snapshots, load_between, save_snapshots, delete_snapshots, quote_balance,
  total_equity, total_pnl, snapshot_equity, realized_from, calculate_realized_pnl, unrealized_from,
  calculate_unrealized_pnl, get_portfolio, record_snapshot, get_equity_curve,
}
use crypto_master.Portfolio.Marks.{calculate_unrealized_pnl-eq-get_total_unrealized_pnl}
use crypto_master.Portfolio.Snapshots.{same_mode, load_snapshots-record_snapshot}
use crypto_master.Portfolio.Account.{open_fees}
use crypto_master.Portfolio.Conserved.{IsQuotedIn, Deals, idle, buys, sells, capital_conserved}
use crypto_master.Tests.Paper.{dec, usdt, config, funded, long_btc, held_btc}
use crypto_master.Tests.PaperRuns.{second}
use crypto_master.Tests.Restart.{boots, files, kept, restarted, stopped, valid}

unfoldable reports : Unit {0}
unfolding boots load_snapshots load_between save_snapshots delete_snapshots quote_balance
    total_equity total_pnl snapshot_equity realized_from calculate_realized_pnl unrealized_from
    calculate_unrealized_pnl get_portfolio record_snapshot get_equity_curve unrealized_pnl
    get_total_unrealized_pnl
reports = tt

abbrev prices : Dict Decimal
prices = (text "BTC/USDT", dec 51) ∷ []

-- A profit of 200 less the fees of 5 and 5.2.
realized : calculate_realized_pnl ⦃c = fixed⦄ paper stopped.store ≡ pos 189_800_000_000_000
unfolding reports
realized = refl

equity :
    total_equity ⦃c = fixed⦄
      (get_portfolio ⦃c = fixed⦄ paper (text "main") usdt ((usdt, dec 9495) ∷ []) prices files)
    ≡ dec 9595
unfolding reports
equity = refl

abbrev no_files : SnapshotFiles
no_files = record { of_backtest = none; of_paper = none; of_live = none }

abbrev recorded : SnapshotFiles
recorded =
    (record_snapshot ⦃c = fixed⦄ paper (text "main") usdt ((usdt, dec 9495) ∷ []) prices 5 files
      no_files).1

curve :
    ((get_equity_curve ⦃c = fixed⦄ (some 5) none paper (text "main") recorded).0
      ≡ (5, dec 9595) ∷ [])
    × ((get_equity_curve ⦃c = fixed⦄ none (some 4) paper (text "main") recorded).0 ≡ [])
unfolding reports
curve = (refl, refl)

load_snapshots-record_snapshot_example :
    let (snapshot, f') =
      record_snapshot ⦃c = fixed⦄ paper
        (text "main")
        usdt
        ((usdt, dec 7) ∷ [])
        prices
        6
        files
        recorded in
    (load_snapshots paper (text "main") f').0 ≡ (
      if same_mode paper paper && same (text "main") (text "main")
      then (load_snapshots paper (text "main") recorded).0 ++ snapshot ∷ []
      else (load_snapshots paper (text "main") recorded).0)
load_snapshots-record_snapshot_example =
    load_snapshots-record_snapshot ⦃c = fixed⦄ paper paper (text "main") usdt (text "main")
      ((usdt, dec 7) ∷ []) prices 6 files recorded

-- The snapshots of every account of the mode go.
deleted : (load_snapshots paper (text "other") (delete_snapshots paper recorded).1).0 ≡ []
unfolding reports
deleted = refl

calculate_unrealized_pnl-eq-get_total_unrealized_pnl_example :
    calculate_unrealized_pnl ⦃c = fixed⦄ paper prices files
    ≡ get_total_unrealized_pnl ⦃c = fixed⦄ prices restarted
calculate_unrealized_pnl-eq-get_total_unrealized_pnl_example =
    calculate_unrealized_pnl-eq-get_total_unrealized_pnl ⦃c = fixed⦄ fixed-IsRounding prices
      restarted kept.1

quoted : IsQuotedIn ⦃c = fixed⦄ usdt restarted.open_positions
unfolding reports
quoted k o found = elim (Bool-cases (same k (text "t1"))) [
  | inl hit ↦
      let this : held_btc ≡ o = ground (arith, rw (lookup, hit) at found) in
      subst (λ (p : OpenPosition). p.quote_currency ≡ usdt) this refl
  | inr miss ↦ let lost = rw (lookup, miss) at found in cc
]

-- The session of the restart, as deals in one currency.
deals : Deals ⦃c = fixed⦄ config usdt restarted stopped
unfolding reports
deals =
    sells 9 (text "t1") (dec 52) (text "take_profit")
      (buys second long_btc none idle refl (refl, valid) refl (omega arith))

capital_conserved_example :
    (b' : PaperBalance) × (lookup usdt stopped.balances ≡ some b')
    × ((total ⦃c = fixed⦄ b' +ℤ open_fees stopped.store)
          -ℤ calculate_realized_pnl ⦃c = fixed⦄ paper stopped.store
        ≡ (total ⦃c = fixed⦄ (funded 9495 500) +ℤ open_fees restarted.store)
          -ℤ calculate_realized_pnl ⦃c = fixed⦄ paper restarted.store)
unfolding reports
capital_conserved_example =
    capital_conserved ⦃c = fixed⦄ fixed-IsExact fixed-IsRounding config refl usdt restarted stopped
      (funded 9495 500) kept.0 kept.1 quoted refl deals
