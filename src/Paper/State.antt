-- ===== src/Paper/State.antt =====
-- The state of `PaperTrader` in src/trading/paper.py.
use crypto_master.Prelude.{Bool, List, Option}
use crypto_master.Text.{Text}
use crypto_master.Dict.{Dict}
use crypto_master.Decimal.{Decimal}
use crypto_master.Exit.{Position}
use crypto_master.Tracker.{Store}
use crypto_master.Paper.Balance.{PaperBalance}

pub record OpenPosition : Type 0 where
  pub trade_id : Text
  pub position : Position
  pub margin : Decimal
  pub quote_currency : Text
  pub entry_fee : Decimal

-- The events that the trader writes to the activity log: a liquidation with its position, exit
-- price, profit and the free amount before and after, and a repair with the two balances.
pub data Event : Type 0 where
  liquidated : Position → Decimal → Decimal → Decimal → Decimal → Event
  repaired_bounds : Text → PaperBalance → PaperBalance → Event

-- What the constructor fixes: the taker's fee rate, the deposit on a liquidation, and whether
-- there is an activity log.
pub record Config : Type 0 where
  pub taker_fee_rate : Decimal
  pub auto_deposit_on_liquidation : Bool
  pub has_activity_log : Bool
  pub sub_account_id : Text

-- `snapshot` is the balance file, if there is one (its keys are sorted, which is left out), `store`
-- the trade files.
pub record PaperTrader : Type 0 where
  pub balances : Dict PaperBalance
  pub open_positions : Dict OpenPosition
  pub store : Store
  pub snapshot : Option (Dict PaperBalance)
  pub events : List Event
