-- ===== src/Tests/Restart.antt =====
-- Tests and instances for starting the trader of src/trading/paper.py.
use crypto_master.Prelude.{◌≡◌, refl, subst, map, none, some, inr, [], ◌∷◌, arith}
use crypto_master.Prelude.Int.{pos}
use crypto_master.Text.{text}
use crypto_master.Dict.{Dict, lookup}
use crypto_master.Decimal.Exact.{fixed, fixed-IsRounding, fixed-IsExact}
use crypto_master.Result.{ok, err, invalid_position}
use crypto_master.RiskPolicy.{positive_or_none}
use crypto_master.Tracker.{
  Trade, Store, new_trade, get_open_trades, load_trades, recover_trade_bounds,
}
use crypto_master.Paper.Balance.{PaperBalance}
use crypto_master.Paper.State.{PaperTrader}
use crypto_master.Paper.Trading.{opening, open_position, close_position}
use crypto_master.Paper.Valid.{IsValid}
use crypto_master.Paper.Startup.{
  BoundsIndex, missing, recovered, resolve_bounds, find_bounds, valid_position, position_from,
  rehydrate, rehydrate_all, charge_legacy_fee, lock_legacy, legacy_loop, reconcile_legacy, start,
  set_balance,
}
use crypto_master.Paper.Sync.{restored_from}
use crypto_master.Paper.Ledger.{IsLedger}
use crypto_master.Paper.InSync.{InSync}
use crypto_master.Paper.Restart.{
  Session, begin, call, opens, closes, IsStartable, start_from_files, restart_after_calls,
}
use crypto_master.Tests.Paper.{
  dec, usdt, config, funded, long_btc, first, opened_once, held_btc, calls,
}
use crypto_master.Tests.PaperRuns.{second}

unfoldable pub boots : Unit {0}
unfolding calls get_open_trades load_trades recover_trade_bounds resolve_bounds find_bounds
    valid_position positive_or_none position_from rehydrate rehydrate_all charge_legacy_fee
    lock_legacy legacy_loop reconcile_legacy start set_balance restored_from
boots = tt

-- The files of a trader that has opened one position.
abbrev pub saved : Dict PaperBalance
saved = (usdt, funded 9495 500) ∷ []

abbrev pub files : Store
files = opened_once.store

pub valid : IsValid long_btc
valid = record {
  price = refl;
  size = refl;
  leverage_from = omega arith;
  leverage_to = omega arith;
  stop = refl;
  target = refl;
}

pub startable : IsStartable ⦃c = fixed⦄ saved files
unfolding boots
startable = record {
  file = record {
    filed = record { in_backtest = tt; in_paper = (refl, tt); in_live = tt };
    distinct_ids = (refl, tt);
    apart = (refl, tt);
    bounded = (inr (refl, valid), tt);
  };
  distinct_balances = (refl, tt);
  margins = ((omega arith, refl), tt);
}

abbrev pub restarted : PaperTrader
restarted = record {
  balances = saved;
  open_positions = (text "t1", held_btc) ∷ [];
  store = files;
  snapshot = some saved;
  events = [];
}

starts : start ⦃c = fixed⦄ config [] ((usdt, dec 10000) ∷ []) (some saved) files ≡ ok restarted
unfolding boots
starts = refl

-- A stored leverage that no position has.
abbrev over_levered : Store
over_levered = record files {
  paper_trades = map {A = Trade} {B = Trade} (λ t. record t { leverage = 200 }) files.paper_trades;
}

refuses : start ⦃c = fixed⦄ config [] [] (some saved) over_levered ≡ err invalid_position
unfolding boots
refuses = refl

-- Without a balance file, the margin and the fee of the position are taken again.
starts_without_file : start ⦃c = fixed⦄ config [] ((usdt, dec 10000) ∷ []) none files ≡ ok restarted
unfolding boots
starts_without_file = refl

-- An open trade without a stop and a target: dropped, or given the bounds of its performance record.
abbrev unbounded : Trade
unbounded = new_trade (text "t3") 3 (
    opening ⦃c = fixed⦄ config first (record long_btc { stop_loss = none; take_profit = none })
      (some (text "r1")) (pos 0))

abbrev index : BoundsIndex
index = (text "r1", (some (dec 48), some (dec 55))) ∷ []

found :
    (find_bounds [] unbounded ≡ missing)
    × (find_bounds index unbounded ≡ recovered (dec 48) (dec 55))
    × (find_bounds ((text "r1", (none, some (dec 55))) ∷ []) unbounded ≡ missing)
unfolding boots
found = (refl, refl, refl)

new_free : lookup usdt (set_balance usdt (dec 7) restarted).balances ≡ some (funded 7 500)
unfolding boots
new_free = refl

pub kept : IsLedger ⦃c = fixed⦄ restarted × InSync ⦃c = fixed⦄ restarted
kept =
    let (s, e, l, i) =
      start_from_files ⦃c = fixed⦄ config [] ((usdt, dec 10000) ∷ []) saved files startable in
    let this : s ≡ restarted = ground (arith, e, starts) in
    subst (λ z. IsLedger ⦃c = fixed⦄ z × InSync ⦃c = fixed⦄ z) this (l, i)

-- A second position is opened, and the first is closed.
abbrev pub opened_again : PaperTrader
opened_again = (open_position ⦃c = fixed⦄ config second long_btc none restarted).1

abbrev pub stopped : PaperTrader
stopped =
    (close_position ⦃c = fixed⦄ config 9 (text "t1") (dec 52) (text "take_profit") opened_again).1

session : Session ⦃c = fixed⦄ config restarted stopped
unfolding boots
session =
    call (call begin (opens second long_btc none refl (refl, valid)))
      (closes 9 (text "t1") (dec 52) (text "take_profit"))

start_from_files_example :
    (s : PaperTrader) × (start ⦃c = fixed⦄ config [] [] (some saved) files ≡ ok s)
    × IsLedger ⦃c = fixed⦄ s
    × InSync ⦃c = fixed⦄ s
start_from_files_example = start_from_files ⦃c = fixed⦄ config [] [] saved files startable

restart_after_calls_example :
    start ⦃c = fixed⦄ config [] [] stopped.snapshot stopped.store
    ≡ ok (record stopped { events = [] })
restart_after_calls_example =
    restart_after_calls ⦃c = fixed⦄ fixed-IsExact fixed-IsRounding config [] []
      ((usdt, dec 10000) ∷ []) [] saved files restarted stopped startable starts session
