-- ===== src/Paper/Trading.antt =====
-- Opening and closing positions: `PaperTrader` of src/trading/paper.py.
use crypto_master.Prelude.{
  ℕ, Bool, true, false, Option, none, some, List, [], ◌∷◌, ◌++◌, ◌&&◌, if◌then◌else◌, is_some,
}
use crypto_master.Prelude.Int.{pos}
use crypto_master.Text.{Text}
use crypto_master.Dict.{lookup, insert, erase}
use crypto_master.Decimal.{Decimal, Context, add, sub, mul, div, lt, literal}
use crypto_master.TradingMath.{pnl_for_trade}
use crypto_master.Exit.{Position, ExitReason, exit_condition_for_position}
use crypto_master.Result.{Result, ok, err, Error, insufficient, no_balance}
use crypto_master.Tracker.{Trade, Opening, Closing, paper, open_trade, close_trade}
use crypto_master.Paper.Balance.{PaperBalance, lock, unlock, deduct}
use crypto_master.Paper.Symbols.{get_quote_currency}
use crypto_master.Paper.State.{OpenPosition, Event, liquidated, Config, PaperTrader}

abbrev pub with_balance : Text → PaperBalance → PaperTrader → PaperTrader
with_balance currency b s = record s { balances = insert currency b s.balances }

-- `_save_balances`
abbrev pub save_balances : PaperTrader → PaperTrader
save_balances s = record s { snapshot = some s.balances }

-- What one call of `open_position` gets from outside: the new trade's id, the order's and the time.
pub record Fresh : Type 0 where
  pub trade_id : Text
  pub order_id : Text
  pub now : ℕ

module _ ⦃c : Context⦄ where
  unfoldable pub notional_value : Position → Decimal
  notional_value p = mul p.entry_price p.quantity

  -- `_calculate_required_margin`
  unfoldable pub required_margin : Position → Decimal
  unfolding notional_value
  required_margin p = div (notional_value p) (literal p.leverage 1)

  -- `_calculate_fee`, as a taker.
  unfoldable pub calculate_fee : Config → Decimal → Decimal
  calculate_fee g notional = mul notional g.taker_fee_rate

  abbrev pub opening : Config → Fresh → Position → Option Text → Decimal → Opening
  opening g f p performance fee = record {
    symbol = p.symbol;
    side = p.side;
    entry_price = p.entry_price;
    entry_quantity = p.quantity;
    mode = paper;
    leverage = p.leverage;
    entry_order_id = some f.order_id;
    performance_record_id = performance;
    sub_account_id = g.sub_account_id;
    fees = fee;
    stop_loss = p.stop_loss;
    take_profit = p.take_profit;
  }

  -- The end of `open_position`: the trade, the open position and the snapshot, once the margin is
  -- locked and the fee is paid.
  unfoldable pub commit_open :
      Config
      → Fresh
      → Position
      → Option Text
      → Decimal
      → PaperBalance
      → PaperTrader
      → Result Trade × PaperTrader
  commit_open g f p performance fee b s =
      let quote = get_quote_currency p.symbol in
      let (trade, store) = open_trade f.trade_id f.now (opening g f p performance fee) s.store in
      let held : OpenPosition = record {
        trade_id = f.trade_id;
        position = p;
        margin = required_margin p;
        quote_currency = quote;
        entry_fee = fee;
      } in
      (
        ok trade,
        save_balances (record s {
          balances = insert quote b s.balances;
          open_positions = insert f.trade_id held s.open_positions;
          store = store;
        }),
      )

  -- The handler of a fee that is not covered: the margin is unlocked and the error raised again.
  unfoldable pub return_margin :
      Text → Error → PaperBalance → Result PaperBalance → PaperTrader → Result Trade × PaperTrader
  return_margin quote e b (ok unlocked) s = (err e, with_balance quote unlocked s)
  return_margin quote e b (err e') s = (err e', with_balance quote b s)

  -- After `deduct`; `b` is the balance with the margin locked.
  unfoldable pub after_fee :
      Config
      → Fresh
      → Position
      → Option Text
      → Decimal
      → PaperBalance
      → Result PaperBalance
      → PaperTrader
      → Result Trade × PaperTrader
  unfolding commit_open return_margin
  after_fee g f p performance fee b (ok paid) s = commit_open g f p performance fee paid s
  after_fee g f p performance fee b (err insufficient) s =
      return_margin (get_quote_currency p.symbol) insufficient b (unlock (required_margin p) b) s
  after_fee g f p performance fee b (err e) s =
      (err e, with_balance (get_quote_currency p.symbol) b s)

  -- After `lock`.
  unfoldable pub after_lock :
      Config
      → Fresh
      → Position
      → Option Text
      → Result PaperBalance
      → PaperTrader
      → Result Trade × PaperTrader
  unfolding after_fee
  after_lock g f p performance (err e) s = (err e, s)
  after_lock g f p performance (ok b) s =
      let fee = calculate_fee g (notional_value p) in
      if lt (pos 0) fee
      then after_fee g f p performance fee b (deduct fee b) s
      else commit_open g f p performance fee b s

  unfoldable pub open_on :
      Config
      → Fresh
      → Position
      → Option Text
      → Option PaperBalance
      → PaperTrader
      → Result Trade × PaperTrader
  unfolding after_lock
  open_on g f p performance none s = (err no_balance, s)
  open_on g f p performance (some b) s = after_lock g f p performance (lock (required_margin p) b) s

  unfoldable pub open_position :
      Config → Fresh → Position → Option Text → PaperTrader → Result Trade × PaperTrader
  unfolding open_on
  open_position g f p performance s =
      open_on g f p performance (lookup (get_quote_currency p.symbol) s.balances) s

  -- The second half of `_apply_close_to_balance`, once the margin is unlocked: the free amount
  -- after the close, and whether it is a liquidation.
  unfoldable pub settled_free : Config → Decimal → Decimal → Decimal → Decimal × Bool
  settled_free g free pnl exit_fee =
      let projected = add free (sub pnl exit_fee) in
      (
        if lt projected (pos 0) && g.auto_deposit_on_liquidation then pos 0 else projected,
        lt projected (pos 0),
      )

  abbrev pub closing : Decimal → Text → Decimal → Closing
  closing price reason fee = record {
    exit_price = price;
    exit_quantity = none;
    close_reason = reason;
    exit_order_id = none;
    fees = fee;
  }

  abbrev pub position_exit_pnl : OpenPosition → Decimal → Decimal
  position_exit_pnl o price =
      pnl_for_trade o.position.entry_price price o.position.quantity o.position.side

  abbrev pub exit_fee_of : Config → OpenPosition → Decimal → Decimal
  exit_fee_of g o price = calculate_fee g (mul price o.position.quantity)

  -- The end of `close_position`: the trade is closed, the position dropped, a liquidation logged,
  -- and the balances saved if there is a trade and a balance.
  unfoldable pub finish_close :
      Config
      → ℕ
      → Text
      → OpenPosition
      → Decimal
      → Text
      → List Event
      → Bool
      → PaperTrader
      → Result (Option Trade) × PaperTrader
  finish_close g now trade_id o price reason log has_balance s =
      let (trade, store) =
        close_trade trade_id now (closing price reason (exit_fee_of g o price)) s.store in
      let s' = record s {
        store = store;
        open_positions = erase trade_id s.open_positions;
        events = s.events ++ log;
      } in
      (ok trade, if is_some trade && has_balance then save_balances s' else s')

  -- Where the quote currency has a balance: the result of `unlock`.
  unfoldable pub close_balance :
      Config
      → ℕ
      → Text
      → OpenPosition
      → Decimal
      → Text
      → Result PaperBalance
      → PaperTrader
      → Result (Option Trade) × PaperTrader
  unfolding finish_close
  close_balance g now trade_id o price reason (err e) s = (err e, s)
  close_balance g now trade_id o price reason (ok b) s =
      let pnl = position_exit_pnl o price in
      let (free, is_liquidated) = settled_free g b.free pnl (exit_fee_of g o price) in
      let log : List Event =
        if is_liquidated && g.has_activity_log
        then liquidated o.position price pnl b.free free ∷ []
        else [] in
      finish_close g now trade_id o price reason log true
        (with_balance o.quote_currency (record b { free = free }) s)

  unfoldable pub close_open :
      Config
      → ℕ
      → Text
      → OpenPosition
      → Decimal
      → Text
      → Option PaperBalance
      → PaperTrader
      → Result (Option Trade) × PaperTrader
  unfolding close_balance
  close_open g now trade_id o price reason none s =
      finish_close g now trade_id o price reason [] false s
  close_open g now trade_id o price reason (some b) s =
      close_balance g now trade_id o price reason (unlock o.margin b) s

  unfoldable pub close_found :
      Config
      → ℕ
      → Text
      → Option OpenPosition
      → Decimal
      → Text
      → PaperTrader
      → Result (Option Trade) × PaperTrader
  unfolding close_open
  close_found g now trade_id none price reason s = (ok none, s)
  close_found g now trade_id (some o) price reason s =
      close_open g now trade_id o price reason (lookup o.quote_currency s.balances) s

  unfoldable pub close_position :
      Config → ℕ → Text → Decimal → Text → PaperTrader → Result (Option Trade) × PaperTrader
  unfolding close_found
  close_position g now trade_id price reason s =
      close_found g now trade_id (lookup trade_id s.open_positions) price reason s

-- `check_exit_conditions`
unfoldable pub check_exit_conditions : Text → Decimal → PaperTrader → Bool × Option ExitReason
check_exit_conditions trade_id price s = elim (lookup trade_id s.open_positions) [
  | none ↦ (false, none)
  | some o ↦ exit_condition_for_position o.position price
]
