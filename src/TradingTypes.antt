-- ===== src/TradingTypes.antt =====
-- src/utils/trading_types.py: the literals of a trade's side, and the order sides that open and
-- close a position. `SignalSide` adds `neutral`.
pub data TradeSide : Type 0 where
  long short : TradeSide

pub data SignalSide : Type 0 where
  long short neutral : SignalSide

pub data OrderSide : Type 0 where
  buy sell : OrderSide

unfoldable pub entry_order_side : TradeSide → OrderSide
entry_order_side TradeSide.long = buy
entry_order_side TradeSide.short = sell

unfoldable pub closing_order_side : TradeSide → OrderSide
closing_order_side TradeSide.long = sell
closing_order_side TradeSide.short = buy
