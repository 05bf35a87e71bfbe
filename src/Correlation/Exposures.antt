-- ===== src/Correlation/Exposures.antt =====
-- The exposures of src/runtime/correlation_governor.py and the queries on a set of them.
use crypto_master.Prelude.{ℕ, Bool, true, false, Option, none, some, List, keep, map}
use crypto_master.Text.{Text, text, same}
use crypto_master.Dict.{Dict, lookup}
use crypto_master.Decimal.{Decimal, Context, mul, abs}
use crypto_master.TradingTypes.{TradeSide}
use crypto_master.Tracker.{Trade}

-- `CorrelationExposureSource`
pub data ExposureSource : Type 0 where
  backtest runtime : ExposureSource

pub record CorrelationExposure : Type 0 where
  pub source : ExposureSource
  pub exposure_id : Text
  pub sub_account_id : Text
  pub strategy_id : Text
  pub symbol : Text
  pub side : TradeSide
  pub opened_at : ℕ
  pub closed_at : Option ℕ
  pub entry_price : Decimal
  pub quantity : Decimal
  pub notional : Decimal
  pub pnl : Option Decimal

-- `d.get(k, default)`
abbrev pub get_or : Text → Option Text → Text
get_or default none = default
get_or default (some s) = s

abbrev pub by_performance : Dict Text → Option Text → Text
by_performance strategies none = text "unknown"
by_performance strategies (some k) = get_or (text "unknown") (lookup k strategies)

-- The strategy of a trade: by its own id, else by its performance record.
unfoldable pub strategy_of : Option (Dict Text) → Trade → Text
strategy_of none t = text "unknown"
strategy_of (some strategies) t =
    get_or (by_performance strategies t.performance_record_id) (lookup t.id strategies)

module _ ⦃c : Context⦄ where
  -- `CorrelationExposure.from_trade_history`
  unfoldable pub exposure_of : Option (Dict Text) → Trade → CorrelationExposure
  unfolding strategy_of
  exposure_of strategies t = record {
    source = runtime;
    exposure_id = t.id;
    sub_account_id = t.sub_account_id;
    strategy_id = strategy_of strategies t;
    symbol = t.symbol;
    side = t.side;
    opened_at = t.entry_time;
    closed_at = t.exit_time;
    entry_price = t.entry_price;
    quantity = t.entry_quantity;
    notional = abs (mul t.entry_price t.entry_quantity);
    pnl = t.pnl;
  }

  -- `CorrelationInputSet.from_trade_history`
  unfoldable pub from_trade_history : List Trade → Option (Dict Text) → List CorrelationExposure
  unfolding exposure_of
  from_trade_history trades strategies = map (exposure_of strategies) trades

unfoldable pub for_sub_account : Text → List CorrelationExposure → List CorrelationExposure
for_sub_account k es = keep (λ e. same e.sub_account_id k) es

unfoldable pub for_symbol : Text → List CorrelationExposure → List CorrelationExposure
for_symbol k es = keep (λ e. same e.symbol k) es

abbrev pub is_running : Option ℕ → Bool
is_running none = true
is_running (some _) = false

unfoldable pub open_only : List CorrelationExposure → List CorrelationExposure
open_only es = keep (λ e. is_running e.closed_at) es
