-- ===== src/Paper/Startup.antt =====
-- The constructor of `PaperTrader` in src/trading/paper.py: the balance file or the initial amounts,
-- the positions of the open trades, and the repair of the locked amounts. The file and the trades are
-- read without fault; a balance file that cannot be read counts as absent.
use crypto_master.Prelude.{
  Bool, true, false, not, Option, none, some, List, [], ◌∷◌, ◌++◌, ◌&&◌, ◌||◌, if◌then◌else◌,
  is_some, leb,
}
use crypto_master.Prelude.Int.{pos}
use crypto_master.Text.{Text}
use crypto_master.Dict.{Dict, lookup, insert}
use crypto_master.Decimal.{Decimal, Context, lt}
use crypto_master.Exit.{Position}
use crypto_master.Result.{Result, ok, err, ◌>>=◌, insufficient, invalid_position}
use crypto_master.RiskPolicy.{positive_or_none}
use crypto_master.Tracker.{Trade, Store, paper, get_open_trades, recover_trade_bounds}
use crypto_master.Paper.Balance.{PaperBalance, lock, deduct}
use crypto_master.Paper.Symbols.{get_quote_currency}
use crypto_master.Paper.State.{OpenPosition, Config, PaperTrader}
use crypto_master.Paper.Trading.{required_margin, with_balance, save_balances}
use crypto_master.Paper.Reconcile.{reconcile_locked}

-- `load_performance_record_bounds_index`: the stop and the target of each performance record.
abbrev pub BoundsIndex : Type 0
BoundsIndex = Dict (Option Decimal × Option Decimal)

abbrev pub both_bounds : Option (Option Decimal × Option Decimal) → Option (Decimal × Decimal)
both_bounds (some (some stop, some target)) = some (stop, target)
both_bounds _ = none

-- `resolve_bounds_from_performance_record` of src/strategy/performance.py.
unfoldable pub resolve_bounds : BoundsIndex → Text → Option (Decimal × Decimal)
resolve_bounds index record_id = both_bounds (lookup record_id index)

-- What the constructor finds as the bounds of an open trade.
pub data FoundBounds : Type 0 where
  stored missing : FoundBounds
  recovered : Decimal → Decimal → FoundBounds

abbrev pub resolved : Option (Decimal × Decimal) → FoundBounds
resolved none = missing
resolved (some (stop, target)) = recovered stop target

abbrev pub linked_bounds : BoundsIndex → Option Text → FoundBounds
linked_bounds index none = missing
linked_bounds index (some record_id) = resolved (resolve_bounds index record_id)

unfoldable pub find_bounds : BoundsIndex → Trade → FoundBounds
unfolding resolve_bounds
find_bounds index t =
    if is_some t.stop_loss || is_some t.take_profit
    then stored
    else linked_bounds index t.performance_record_id

-- The constraints of `Position` in src/models.py, which building one checks.
unfoldable pub valid_position : Position → Bool
unfolding positive_or_none
valid_position p =
    lt (pos 0) p.entry_price
    && (lt (pos 0) p.quantity
        && (leb 1 p.leverage
            && (leb p.leverage 125
                && (positive_or_none p.stop_loss && positive_or_none p.take_profit))))

abbrev pub position_of : Trade → Option Decimal → Option Decimal → Position
position_of t stop target = record {
  symbol = t.symbol;
  side = t.side;
  entry_price = t.entry_price;
  quantity = t.entry_quantity;
  leverage = t.leverage;
  stop_loss = stop;
  take_profit = target;
}

-- The new balances of the constructor's argument.
abbrev pub initial_balances : Dict Decimal → Dict PaperBalance
initial_balances [] = []
initial_balances ((currency, amount) ∷ d) =
    (currency, record { currency = currency; free = amount; locked = pos 0 }) ∷ initial_balances d

abbrev pub balances_from : Dict Decimal → Option (Dict PaperBalance) → Dict PaperBalance
balances_from initial none = initial_balances initial
balances_from initial (some saved) = saved

abbrev pub any_position : List OpenPosition → Bool
any_position [] = false
any_position (_ ∷ _) = true

-- A handler that only logs a shortage.
abbrev pub tolerated : PaperBalance → Result PaperBalance → Result PaperBalance
tolerated b (err insufficient) = ok b
tolerated b r = r

-- What `set_balance` writes.
abbrev pub with_free : Text → Decimal → Option PaperBalance → PaperBalance
with_free currency amount none = record { currency = currency; free = amount; locked = pos 0 }
with_free currency amount (some b) = record b { free = amount }

module _ ⦃c : Context⦄ where
  -- The open position of a trade, with the bounds that were found.
  unfoldable pub position_from : Trade → Option Decimal → Option Decimal → OpenPosition
  position_from t stop target = record {
    trade_id = t.id;
    position = position_of t stop target;
    margin = required_margin (position_of t stop target);
    quote_currency = get_quote_currency t.symbol;
    entry_fee = if is_some t.exit_price then pos 0 else t.fees;
  }

  abbrev pub with_position : OpenPosition → PaperTrader → PaperTrader
  with_position o s = record s { open_positions = insert o.trade_id o s.open_positions }

  -- One turn of the loop of `_rehydrate_open_positions`, with the positions restored so far. Where it
  -- raises there is no trader; the bounds written to the file until then are not kept track of.
  unfoldable pub rehydrate :
      FoundBounds
      → Trade
      → PaperTrader
      → List OpenPosition
      → Result (PaperTrader × List OpenPosition)
  unfolding position_from valid_position
  rehydrate missing t s done = ok (s, done)
  rehydrate stored t s done =
      let o = position_from t t.stop_loss t.take_profit in
      if valid_position (position_of t t.stop_loss t.take_profit)
      then ok (with_position o s, done ++ o ∷ [])
      else err invalid_position
  rehydrate (recovered stop target) t s done =
      let o = position_from t (some stop) (some target) in
      if valid_position (position_of t (some stop) (some target))
      then ok (
        with_position o (record s { store = recover_trade_bounds t.id stop target s.store }),
        done ++ o ∷ [],
      )
      else err invalid_position

  unfoldable pub rehydrate_all :
      BoundsIndex
      → List Trade
      → PaperTrader
      → List OpenPosition
      → Result (PaperTrader × List OpenPosition)
  unfolding rehydrate find_bounds
  rehydrate_all index [] s done = ok (s, done)
  rehydrate_all index (t ∷ ts) s done =
      rehydrate (find_bounds index t) t s done >>= λ r. rehydrate_all index ts r.0 r.1

  -- The entry fee in `_reconcile_legacy_rehydrated_balances`, after the lock; a fee that is not
  -- covered is only logged.
  unfoldable pub charge_legacy_fee : OpenPosition → PaperBalance → Result PaperBalance
  charge_legacy_fee o b =
      if lt (pos 0) o.entry_fee then tolerated b (deduct o.entry_fee b) else ok b

  -- The result of the lock: one that is not covered is only logged, any other error is raised. With
  -- the state, whether a balance changed.
  unfoldable pub lock_legacy :
      OpenPosition → Result PaperBalance → PaperTrader → Bool → Result (PaperTrader × Bool)
  unfolding charge_legacy_fee
  lock_legacy o (err insufficient) s changed = ok (s, changed)
  lock_legacy o (err e) s changed = err e
  lock_legacy o (ok b) s changed =
      charge_legacy_fee o b >>= λ b'. ok (with_balance o.quote_currency b' s, true)

  abbrev pub legacy_position :
      OpenPosition → Option PaperBalance → PaperTrader → Bool → Result (PaperTrader × Bool)
  legacy_position o none s changed = ok (s, changed)
  legacy_position o (some b) s changed = lock_legacy o (lock o.margin b) s changed

  unfoldable pub legacy_loop : List OpenPosition → PaperTrader → Bool → Result (PaperTrader × Bool)
  unfolding lock_legacy
  legacy_loop [] s changed = ok (s, changed)
  legacy_loop (o ∷ os) s changed =
      legacy_position o (lookup o.quote_currency s.balances) s changed >>= λ r.
      legacy_loop os r.0 r.1

  -- `_reconcile_legacy_rehydrated_balances`
  unfoldable pub reconcile_legacy : List OpenPosition → PaperTrader → Result PaperTrader
  unfolding legacy_loop
  reconcile_legacy os s =
      legacy_loop os s false >>= λ r. ok (if r.1 then save_balances r.0 else r.0)

  -- `__init__`, on the initial amounts, the balance file and the trade files.
  unfoldable pub start :
      Config → BoundsIndex → Dict Decimal → Option (Dict PaperBalance) → Store → Result PaperTrader
  unfolding rehydrate_all reconcile_legacy
  start g index initial saved store =
      let fresh : PaperTrader = record {
        balances = balances_from initial saved;
        open_positions = [];
        store = store;
        snapshot = saved;
        events = [];
      } in
      rehydrate_all index (get_open_trades (some paper) store) fresh [] >>= λ r.
      (if any_position r.1 && not (is_some saved) then reconcile_legacy r.1 r.0 else ok r.0)
      >>= λ s. ok (reconcile_locked g s)

-- `set_balance`
unfoldable pub set_balance : Text → Decimal → PaperTrader → PaperTrader
set_balance currency amount s =
    save_balances (with_balance currency (with_free currency amount (lookup currency s.balances)) s)
