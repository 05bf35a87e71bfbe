-- ===== src/Tracker.antt =====
-- src/strategy/trade_history.py: the trades that are kept, a file for each mode. The clock, the new
-- trade's id and the order ids come in as arguments; the files are read and written without fault.
-- The floating-point `pnl_percent` is left out.
pub mod Files
pub mod Lifecycle
pub mod Settled
use crypto_master.Prelude.{
  ℕ, Bool, true, false, Option, none, some, List, [], ◌∷◌, ◌++◌, ◌&&◌, if◌then◌else◌, leb, keep,
  is_some,
}
use crypto_master.Prelude.Int.{pos}
use crypto_master.Text.{Text, same}
use crypto_master.Decimal.{Decimal, Context, add, sub, eq}
use crypto_master.TradingTypes.{TradeSide}
use crypto_master.TradingMath.{pnl_for_trade}

pub data Mode : Type 0 where
  backtest paper live : Mode

-- The literals "open", "closed" and "cancelled".
pub data Status : Type 0 where
  opened closed cancelled : Status

pub record Trade : Type 0 where
  pub id : Text
  pub performance_record_id : Option Text
  pub sub_account_id : Text
  pub symbol : Text
  pub side : TradeSide
  pub mode : Mode
  pub entry_price : Decimal
  pub entry_quantity : Decimal
  pub entry_time : ℕ
  pub entry_order_id : Option Text
  pub exit_price : Option Decimal
  pub exit_quantity : Option Decimal
  pub exit_time : Option ℕ
  pub exit_order_id : Option Text
  pub leverage : ℕ
  pub fees : Decimal
  pub pnl : Option Decimal
  pub stop_loss : Option Decimal
  pub take_profit : Option Decimal
  pub bounds_recovery_pending : Bool
  pub status : Status
  pub close_reason : Option Text

-- The three files of a sub-account.
pub record Store : Type 0 where
  pub backtest_trades : List Trade
  pub paper_trades : List Trade
  pub live_trades : List Trade

-- `status == "open"`
abbrev pub is_open : Status → Bool
is_open opened = true
is_open closed = false
is_open cancelled = false

-- `_load_trades_for_mode`
abbrev pub trades_of : Mode → Store → List Trade
trades_of backtest s = s.backtest_trades
trades_of paper s = s.paper_trades
trades_of live s = s.live_trades

-- `_save_trades`
abbrev pub save_trades : Mode → List Trade → Store → Store
save_trades backtest ts s = record s { backtest_trades = ts }
save_trades paper ts s = record s { paper_trades = ts }
save_trades live ts s = record s { live_trades = ts }

-- `load_trades`, with no symbol.
unfoldable pub load_trades : Option Mode → Store → List Trade
load_trades none s = s.backtest_trades ++ (s.paper_trades ++ s.live_trades)
load_trades (some m) s = trades_of m s

-- The inner loop of `get_trade`.
unfoldable pub find : Text → List Trade → Option Trade
find k [] = none
find k (t ∷ ts) = if same t.id k then some t else find k ts

-- The loop of `_update_trade`.
unfoldable pub replace : Trade → List Trade → List Trade
replace trade [] = []
replace trade (t ∷ ts) = if same t.id trade.id then trade ∷ ts else t ∷ replace trade ts

abbrev pub or_else : Option Trade → Option Trade → Option Trade
or_else none o = o
or_else (some t) o = some t

unfoldable pub get_trade : Text → Store → Option Trade
unfolding find
get_trade k s =
    or_else (find k s.backtest_trades) (or_else (find k s.paper_trades) (find k s.live_trades))

-- `save_trade`, for the file of a mode.
unfoldable pub save_in : Mode → Trade → Store → Store
save_in m t s = save_trades m (trades_of m s ++ t ∷ []) s

unfoldable pub save_trade : Trade → Store → Store
unfolding save_in
save_trade t s = save_in t.mode t s

-- `_update_trade`, for the file of a mode.
unfoldable pub update_in : Mode → Trade → Store → Store
unfolding replace
update_in m t s = save_trades m (replace t (trades_of m s)) s

unfoldable pub update_trade : Trade → Store → Store
unfolding update_in
update_trade t s = update_in t.mode t s

unfoldable pub get_open_trades : Option Mode → Store → List Trade
unfolding load_trades
get_open_trades m s = keep (λ t. is_open t.status) (load_trades m s)

unfoldable pub get_trades_by_date_range : ℕ → ℕ → Option Mode → Store → List Trade
unfolding load_trades
get_trades_by_date_range start end m s =
    keep (λ t. leb start t.entry_time && leb t.entry_time end) (load_trades m s)

abbrev pub same_option : Option Text → Text → Bool
same_option none k = false
same_option (some j) k = same j k

unfoldable pub get_trades_by_performance_record : Text → Store → List Trade
unfolding load_trades
get_trades_by_performance_record k s =
    keep (λ t. same_option t.performance_record_id k) (load_trades none s)

-- What `open_trade` is called with.
pub record Opening : Type 0 where
  pub symbol : Text
  pub side : TradeSide
  pub entry_price : Decimal
  pub entry_quantity : Decimal
  pub mode : Mode
  pub leverage : ℕ
  pub entry_order_id : Option Text
  pub performance_record_id : Option Text
  pub sub_account_id : Text
  pub fees : Decimal
  pub stop_loss : Option Decimal
  pub take_profit : Option Decimal

unfoldable pub new_trade : Text → ℕ → Opening → Trade
new_trade id now o = record {
  id = id;
  performance_record_id = o.performance_record_id;
  sub_account_id = o.sub_account_id;
  symbol = o.symbol;
  side = o.side;
  mode = o.mode;
  entry_price = o.entry_price;
  entry_quantity = o.entry_quantity;
  entry_time = now;
  entry_order_id = o.entry_order_id;
  exit_price = none;
  exit_quantity = none;
  exit_time = none;
  exit_order_id = none;
  leverage = o.leverage;
  fees = o.fees;
  pnl = none;
  stop_loss = o.stop_loss;
  take_profit = o.take_profit;
  bounds_recovery_pending = false;
  status = opened;
  close_reason = none;
}

unfoldable pub open_trade : Text → ℕ → Opening → Store → Trade × Store
unfolding save_trade new_trade
open_trade id now o s = let t = new_trade id now o in (t, save_trade t s)

-- What `close_trade` is called with.
pub record Closing : Type 0 where
  pub exit_price : Decimal
  pub exit_quantity : Option Decimal
  pub close_reason : Text
  pub exit_order_id : Option Text
  pub fees : Decimal

-- `exit_quantity or trade.entry_quantity`: zero counts as absent.
unfoldable pub or_entry : Option Decimal → Decimal → Decimal
or_entry none entry = entry
or_entry (some q) entry = if eq q (pos 0) then entry else q

module _ ⦃c : Context⦄ where
  -- `TradeHistory.calculate_pnl`, its first result.
  unfoldable pub net_pnl :
      TradeSide → Decimal → Option Decimal → Option Decimal → Decimal → Option Decimal
  net_pnl side entry none quantity fees = none
  net_pnl side entry (some price) none fees = none
  net_pnl side entry (some price) (some quantity) fees =
      some (sub (pnl_for_trade entry price quantity side) fees)

  unfoldable pub calculate_pnl : Trade → Option Decimal
  unfolding net_pnl
  calculate_pnl t = net_pnl t.side t.entry_price t.exit_price t.exit_quantity t.fees

  -- The assignments of `close_trade`, and the profit from them.
  unfoldable pub closed_trade : ℕ → Closing → Trade → Trade
  unfolding or_entry
  closed_trade now x t =
      let t' = record t {
        exit_price = some x.exit_price;
        exit_quantity = some (or_entry x.exit_quantity t.entry_quantity);
        exit_time = some now;
        exit_order_id = x.exit_order_id;
        fees = add t.fees x.fees;
        close_reason = some x.close_reason;
        status = closed;
      } in
      record t' { pnl = calculate_pnl t' }

  unfoldable pub close_trade : Text → ℕ → Closing → Store → Option Trade × Store
  unfolding update_trade
  close_trade k now x s = elim (get_trade k s) [
    | none ↦ (none, s)
    | some t ↦
        if is_open t.status
        then (some (closed_trade now x t), update_trade (closed_trade now x t) s)
        else (none, s)
  ]

-- The bounds that `recover_trade_bounds` writes: only those that are missing.
abbrev pub or_bound : Option Decimal → Decimal → Option Decimal
or_bound none b = some b
or_bound (some a) b = some a

unfoldable pub recover_trade_bounds : Text → Decimal → Decimal → Store → Store
unfolding update_trade
recover_trade_bounds k stop target s = elim (get_trade k s) [
  | none ↦ s
  | some t ↦
      if is_open t.status
      then (if is_some t.stop_loss && is_some t.take_profit
          then s
          else update_trade
              (record t {
                stop_loss = or_bound t.stop_loss stop;
                take_profit = or_bound t.take_profit target;
                bounds_recovery_pending = true;
              })
              s)
      else s
]

unfoldable pub acknowledge_bounds_recovery : Text → Store → Store
unfolding update_trade
acknowledge_bounds_recovery k s = elim (get_trade k s) [
  | none ↦ s
  | some t ↦
      if is_open t.status && t.bounds_recovery_pending
      then update_trade (record t { bounds_recovery_pending = false }) s
      else s
]

unfoldable pub cancel_trade : Text → ℕ → Store → Option Trade × Store
unfolding update_trade
cancel_trade k now s = elim (get_trade k s) [
  | none ↦ (none, s)
  | some t ↦
      let t' = record t { status = cancelled; exit_time = some now } in
      if is_open t.status then (some t', update_trade t' s) else (none, s)
]

unfoldable pub link_to_performance : Text → Text → Store → Option Trade × Store
unfolding update_trade
link_to_performance k performance s = elim (get_trade k s) [
  | none ↦ (none, s)
  | some t ↦
      let t' = record t { performance_record_id = some performance } in (some t', update_trade t' s)
]
