-- ===== src/Tests/PaperRuns.antt =====
-- Instances of the theorems on whole calls and runs of src/trading/paper.py.
use crypto_master.Prelude.{◌≡◌, refl, none, some, arith}
use crypto_master.Prelude.Int.{pos, ◌+ℤ◌, ◌-ℤ◌}
use crypto_master.Text.{text}
use crypto_master.Dict.{lookup}
use crypto_master.Decimal.Exact.{fixed, fixed-IsRounding, fixed-IsExact}
use crypto_master.Result.{ok, insufficient}
use crypto_master.Tracker.{close_trade}
use crypto_master.Paper.Balance.{PaperBalance, total}
use crypto_master.Paper.State.{OpenPosition, PaperTrader}
use crypto_master.Paper.Trading.{
  Fresh, closing, exit_fee_of, position_exit_pnl, open_position, close_position,
}
use crypto_master.Paper.Reconcile.{expected_locked, reconcile_locked}
use crypto_master.Paper.Repair.{reconcile_locked-lookup}
use crypto_master.Paper.Close.{IsCovered, close_position_conserves}
use crypto_master.Paper.Open.{opened_position, open_position_atomic}
use crypto_master.Paper.Effects.{close_position_closes}
use crypto_master.Paper.Ledger.{IsLedger}
use crypto_master.Paper.Run.{opens, closes, Reach, here, next, paper_runs_keep-IsLedger}
use crypto_master.Tests.Paper.{
  dec, usdt, config, funded, start, long_btc, first, opened_once, held_btc, drifted, calls,
}

abbrev after_open : PaperBalance
after_open = record { currency = usdt; free = dec 9495; locked = dec 500 }

covered : IsCovered ⦃c = fixed⦄ opened_once (text "t1") held_btc after_open
unfolding calls
covered = record {
  held = refl;
  funded = refl;
  margin_pos = omega arith;
  margin_locked = omega arith;
}

-- A repaired start, an open, and a second open in the same currency.
abbrev pub second : Fresh
second = record { trade_id = text "t2"; order_id = text "o2"; now = 8 }

abbrev repaired : PaperTrader
repaired = reconcile_locked ⦃c = fixed⦄ config (start 10000)

abbrev opened_first : PaperTrader
opened_first = (open_position ⦃c = fixed⦄ config first long_btc none repaired).1

abbrev opened_both : PaperTrader
opened_both = (open_position ⦃c = fixed⦄ config second long_btc none opened_first).1

abbrev closed_first : PaperTrader
closed_first =
    (close_position ⦃c = fixed⦄ config 9 (text "t1") (dec 52) (text "take_profit") opened_both).1

run : Reach ⦃c = fixed⦄ config repaired closed_first
unfolding calls
run =
    next (next (next here (opens first long_btc none refl)) (opens second long_btc none refl))
      (closes 9 (text "t1") (dec 52) (text "take_profit"))

abbrev second_btc : OpenPosition
second_btc = opened_position ⦃c = fixed⦄ config second long_btc

paper_runs_keep-IsLedger_example : IsLedger ⦃c = fixed⦄ closed_first
paper_runs_keep-IsLedger_example =
    paper_runs_keep-IsLedger ⦃c = fixed⦄ fixed-IsExact fixed-IsRounding config (start 10000)
      closed_first tt tt run

abbrev after_first : PaperBalance
after_first = record { currency = usdt; free = pos 9_684_800_000_000_000; locked = dec 500 }

open_position_atomic_example :
    (open_position ⦃c = fixed⦄ config first long_btc none (start 502)).1 ≡ start 502
unfolding calls
open_position_atomic_example =
    open_position_atomic ⦃c = fixed⦄ fixed-IsExact config first long_btc none (start 502)
      (start 502) insufficient (λ b there. ground (arith, there)) refl

close_position_closes_example :
    let (result, s') =
      close_position ⦃c = fixed⦄ config 9 (text "t1") (dec 52) (text "take_profit") opened_once in
    let closed =
      close_trade ⦃c = fixed⦄
        (text "t1")
        9
        (closing ⦃c = fixed⦄ (dec 52) (text "take_profit") (pos 5_200_000_000_000))
        opened_once.store in
    (result ≡ ok closed.0)
    × (s'.store ≡ closed.1)
    × (lookup usdt s'.balances
        ≡ some (record { currency = usdt; free = pos 10_189_800_000_000_000; locked = dec 0 }))
    × (lookup (text "t1") s'.open_positions ≡ none)
unfolding calls
close_position_closes_example =
    close_position_closes ⦃c = fixed⦄ config 9 (text "t1") (dec 52) (text "take_profit") opened_once
      held_btc after_open usdt (text "t1") covered

close_position_conserves_example :
    (b' : PaperBalance) × (lookup usdt
        (close_position ⦃c = fixed⦄ config 9
          (text "t1")
          (dec 52)
          (text "take_profit")
          opened_once).1.balances
      ≡ some b')
    × (total ⦃c = fixed⦄ b'
        ≡ total ⦃c = fixed⦄ after_open
          +ℤ (position_exit_pnl ⦃c = fixed⦄ held_btc (dec 52)
              -ℤ exit_fee_of ⦃c = fixed⦄ config held_btc (dec 52)))
unfolding calls
close_position_conserves_example =
    close_position_conserves ⦃c = fixed⦄ fixed-IsExact config 9 (text "t1") (dec 52)
      (text "take_profit") opened_once held_btc after_open covered refl

reconcile_locked-lookup_example :
    (b' : PaperBalance) × (lookup usdt (reconcile_locked ⦃c = fixed⦄ config drifted).balances
      ≡ some b')
    × (b'.locked
        ≡ expected_locked ⦃c = fixed⦄ usdt
            (reconcile_locked ⦃c = fixed⦄ config drifted).open_positions)
    × (total ⦃c = fixed⦄ b' ≡ total ⦃c = fixed⦄ (funded 9995 0))
unfolding calls
reconcile_locked-lookup_example =
    reconcile_locked-lookup ⦃c = fixed⦄ fixed-IsRounding config drifted usdt (funded 9995 0) refl
      refl
