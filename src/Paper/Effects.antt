-- ===== src/Paper/Effects.antt =====
-- `open_position` and `close_position` of src/trading/paper.py in full, by the amounts.
use crypto_master.Prelude.{ℕ, ◌≡◌, refl, ap, ◌∙◌, false, Option, none, some, if◌then◌else◌, ◌&&◌}
use crypto_master.Prelude.Int.{pos}
use crypto_master.Text.{Text, same}
use crypto_master.Dict.{lookup, lookup-insert, lookup-erase}
use crypto_master.Decimal.{Decimal, Context, add, sub, mul, lt}
use crypto_master.TradingTypes.{TradeSide}
use crypto_master.TradingMath.{pnl_for_trade}
use crypto_master.Exit.{Position}
use crypto_master.Result.{ok}
use crypto_master.Tracker.{Trade, Closing, paper, opened, close_trade}
use crypto_master.Paper.Balance.{PaperBalance}
use crypto_master.Paper.State.{OpenPosition, Config, PaperTrader}
use crypto_master.Paper.Trading.{Fresh, calculate_fee, settled_free, close_position}
use crypto_master.Paper.Close.{IsCovered, booked, close_position-effect}

module _ ⦃c : Context⦄ where
  -- The open trade of a position, field by field.
  abbrev pub trade_of : Config → Fresh → Position → Option Text → Decimal → Trade
  trade_of g f p performance fee = record {
    id = f.trade_id;
    performance_record_id = performance;
    sub_account_id = g.sub_account_id;
    symbol = p.symbol;
    side = p.side;
    mode = paper;
    entry_price = p.entry_price;
    entry_quantity = p.quantity;
    entry_time = f.now;
    entry_order_id = some f.order_id;
    exit_price = none;
    exit_quantity = none;
    exit_time = none;
    exit_order_id = none;
    leverage = p.leverage;
    fees = fee;
    pnl = none;
    stop_loss = p.stop_loss;
    take_profit = p.take_profit;
    bounds_recovery_pending = false;
    status = opened;
    close_reason = none;
  }

  -- What a position gains at an exit price: a long one by a rise, a short one by a fall.
  abbrev pub profit_at_exit : TradeSide → Decimal → Decimal → Decimal → Decimal
  profit_at_exit TradeSide.long entry exit quantity = mul (sub exit entry) quantity
  profit_at_exit TradeSide.short entry exit quantity = mul (sub entry exit) quantity

  pnl_for_trade-eq-profit_at_exit :
      (side : TradeSide) (entry exit quantity : Decimal)
      → pnl_for_trade entry exit quantity side ≡ profit_at_exit side entry exit quantity
  unfolding pnl_for_trade
  pnl_for_trade-eq-profit_at_exit TradeSide.long entry exit quantity = refl
  pnl_for_trade-eq-profit_at_exit TradeSide.short entry exit quantity = refl

  -- Closing a position whose positive margin its currency has locked does not raise. With the fee as
  -- the exit price times the quantity times the taker's rate, and the profit by the side of the
  -- position: the tracker's files are as closing the trade there at that price, for that reason and
  -- with that fee leaves them, and its result is returned; in the position's currency the margin is
  -- moved from locked to free, and the profit less the fee is added to free, but a negative amount
  -- becomes zero where liquidations make a deposit; the position is dropped; and every other balance
  -- and every other position is as it was.
  pub close_position_closes :
      (g : Config) (now : ℕ) (k : Text) (price : Decimal) (reason : Text) (s : PaperTrader)
      (o : OpenPosition) (b : PaperBalance) (cur j : Text)
      → IsCovered s k o b
      → let (result, s') = close_position g now k price reason s in
        let p = o.position in
        let fee = mul (mul price p.quantity) g.taker_fee_rate in
        let profit = profit_at_exit p.side p.entry_price price p.quantity in
        let projected = add (add b.free o.margin) (sub profit fee) in
        let closing : Closing = record {
          exit_price = price;
          exit_quantity = none;
          close_reason = reason;
          exit_order_id = none;
          fees = fee;
        } in
        let b' : PaperBalance = record {
          currency = b.currency;
          free = if lt projected (pos 0) && g.auto_deposit_on_liquidation then pos 0 else projected;
          locked = sub b.locked o.margin;
        } in
        (result ≡ ok (close_trade k now closing s.store).0)
        × (s'.store ≡ (close_trade k now closing s.store).1)
        × (lookup cur s'.balances
            ≡ (if same cur o.quote_currency then some b' else lookup cur s.balances))
        × (lookup j s'.open_positions ≡ (if same j k then none else lookup j s.open_positions))
  unfolding calculate_fee settled_free
  close_position_closes g now k price reason s o b cur j v =
      let p = o.position in
      let profit = pnl_for_trade-eq-profit_at_exit p.side p.entry_price price p.quantity in
      let effect = close_position-effect g now k price reason s o b v in
      rw (← profit) (
        effect.0,
        effect.1,
        ap (lookup cur) effect.2
            ∙ lookup-insert o.quote_currency cur (booked g o price b) s.balances,
        ap (lookup j) effect.3 ∙ lookup-erase k j s.open_positions,
      )
