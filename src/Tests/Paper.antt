-- ===== src/Tests/Paper.antt =====
-- Tests of the calls of src/trading/paper.py, in a context with twelve places.
use crypto_master.Prelude.{ℕ, ◌*◌, ◌≡◌, refl, true, false, none, some, [], ◌∷◌, arith}
use crypto_master.Prelude.Int.{pos, ◌+ℤ◌, ◌-ℤ◌, ◌*ℤ◌}
use crypto_master.Text.{Text, text, same}
use crypto_master.Dict.{lookup, insert, erase}
use crypto_master.Decimal.{Decimal, add, sub, mul, div}
use crypto_master.Decimal.Exact.{fixed, fixed-IsRounding}
use crypto_master.TradingTypes.{TradeSide}
use crypto_master.TradingMath.{pnl_for_trade}
use crypto_master.Exit.{Position}
use crypto_master.Result.{err, insufficient}
use crypto_master.Tracker.{
  get_trade, save_trade, save_in, update_in, update_trade, find, replace, new_trade, open_trade,
  closed_trade, close_trade, or_entry, calculate_pnl, net_pnl,
}
use crypto_master.Tracker.Lifecycle.{empty}
use crypto_master.Paper.Balance.{
  PaperBalance, total, lock, unlock, credit, deduct, release_residual,
}
use crypto_master.Paper.Balance.Laws.{IsSolvent, Ensures, methods-IsSolvent}
use crypto_master.Paper.Symbols.{
  get_quote_currency, get_quote_currency-join, has_slash, second_part, up_to_slash, ends_with, last,
}
use crypto_master.Paper.State.{OpenPosition, Config, PaperTrader}
use crypto_master.Paper.Trading.{
  Fresh, notional_value, required_margin, calculate_fee, commit_open, return_margin, after_fee,
  after_lock, open_on, open_position, settled_free, finish_close, close_balance, close_open,
  close_found, close_position,
}
use crypto_master.Paper.Reconcile.{
  expected_from, expected_locked, repair, repair_all, repairs, reconcile_locked, release_margin,
  pop_orphan, close_orphan, force_close_orphan,
}
use crypto_master.Paper.Open.{opened_position}

abbrev pub dec : ℕ → Decimal
dec n = pos (n * 1_000_000_000_000)

abbrev pub usdt : Text
usdt = text "USDT"

-- A taker's fee of 0.1 %, no deposit on a liquidation.
abbrev pub config : Config
config = record {
  taker_fee_rate = pos 1_000_000_000;
  auto_deposit_on_liquidation = false;
  has_activity_log = true;
  sub_account_id = text "main";
}

abbrev pub funded : ℕ → ℕ → PaperBalance
funded free locked = record { currency = usdt; free = dec free; locked = dec locked }

abbrev pub start : ℕ → PaperTrader
start free = record {
  balances = (usdt, funded free 0) ∷ [];
  open_positions = [];
  store = empty;
  snapshot = none;
  events = [];
}

-- A notional of 5000 at a leverage of 10: a margin of 500 and a fee of 5.
abbrev pub long_btc : Position
long_btc = record {
  symbol = text "BTC/USDT";
  side = TradeSide.long;
  entry_price = dec 50;
  quantity = dec 100;
  leverage = 10;
  stop_loss = some (dec 48);
  take_profit = some (dec 55);
}

abbrev pub first : Fresh
first = record { trade_id = text "t1"; order_id = text "o1"; now = 7 }

abbrev pub opened_once : PaperTrader
opened_once = (open_position ⦃c = fixed⦄ config first long_btc none (start 10000)).1

abbrev pub held_btc : OpenPosition
held_btc = opened_position ⦃c = fixed⦄ config first long_btc

unfoldable pub calls : Unit {0}
unfolding add sub mul div ◌+ℤ◌ ◌-ℤ◌ ◌*ℤ◌ lookup insert erase same pnl_for_trade total lock unlock
    credit deduct release_residual get_quote_currency has_slash second_part up_to_slash ends_with
    last notional_value required_margin calculate_fee commit_open return_margin after_fee after_lock
    open_on open_position settled_free finish_close close_balance close_open close_found
    close_position expected_from expected_locked repair repair_all repairs reconcile_locked
    release_margin pop_orphan close_orphan force_close_orphan get_trade save_trade save_in update_in
    update_trade find replace new_trade open_trade closed_trade close_trade or_entry calculate_pnl
    net_pnl
calls = tt

balance_after_open :
    lookup usdt opened_once.balances
    ≡ some (record { currency = usdt; free = dec 9495; locked = dec 500 })
unfolding calls
balance_after_open = refl

-- A profit of 200 and an exit fee of 5.2.
balance_after_close :
    lookup usdt
      (close_position ⦃c = fixed⦄ config 9
        (text "t1")
        (dec 52)
        (text "take_profit")
        opened_once).1.balances
    ≡ some (record { currency = usdt; free = pos 10_189_800_000_000_000; locked = dec 0 })
unfolding calls
balance_after_close = refl

-- 502 covers the margin but not the fee: the margin is given back.
fee_not_covered :
    open_position ⦃c = fixed⦄ config first long_btc none (start 502) ≡ (err insufficient, start 502)
unfolding calls
fee_not_covered = refl

-- The orphan's margin comes back without a profit.
balance_after_orphan :
    lookup usdt (force_close_orphan ⦃c = fixed⦄ 9 (text "t1") (dec 52) opened_once).1.balances
    ≡ some (record { currency = usdt; free = dec 9995; locked = dec 0 })
unfolding calls
balance_after_orphan = refl

-- A lost lock is restored from the open positions.
abbrev pub drifted : PaperTrader
drifted = record opened_once { balances = (usdt, funded 9995 0) ∷ [] }

repaired_balance :
    lookup usdt (reconcile_locked ⦃c = fixed⦄ config drifted).balances ≡ some (funded 9495 500)
unfolding calls
repaired_balance = refl

quotes :
    (get_quote_currency (text "ETH/BTC") ≡ text "BTC")
    × (get_quote_currency (text "ETHUSDT") ≡ usdt)
unfolding calls
quotes = (refl, refl)

methods-IsSolvent_example :
    Ensures IsSolvent (lock ⦃c = fixed⦄ (dec 3) (funded 5 2))
    × Ensures IsSolvent (unlock ⦃c = fixed⦄ (dec 3) (funded 5 2))
    × Ensures IsSolvent (credit ⦃c = fixed⦄ (dec 3) (funded 5 2))
    × Ensures IsSolvent (deduct ⦃c = fixed⦄ (dec 3) (funded 5 2))
methods-IsSolvent_example =
    methods-IsSolvent ⦃c = fixed⦄ fixed-IsRounding (dec 3) (funded 5 2)
      (record { free_nonneg = omega arith; locked_nonneg = omega arith })

get_quote_currency-join_example : get_quote_currency (text "BTC/USDT") ≡ usdt
unfolding calls
get_quote_currency-join_example = get_quote_currency-join (text "BTC") (text "USDT") refl refl
