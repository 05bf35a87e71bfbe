-- ===== src/Tests/Tracker.antt =====
-- Tests of src/strategy/trade_history.py, in a context with twelve places.
use crypto_master.Prelude.{◌≡◌, refl, none, some, [], ◌∷◌}
use crypto_master.Text.{text}
use crypto_master.Decimal.{add, sub}
use crypto_master.Decimal.Exact.{fixed}
use crypto_master.TradingTypes.{TradeSide}
use crypto_master.TradingMath.{pnl_for_trade}
use crypto_master.Tracker.{
  closed, paper, Trade, Store, Opening, Closing, get_trade, load_trades, get_open_trades,
  get_trades_by_date_range, get_trades_by_performance_record, update_trade, new_trade, open_trade,
  closed_trade, close_trade, cancel_trade, link_to_performance, or_entry,
}
use crypto_master.Tracker.Files.{get_trade-update_trade}
use crypto_master.Tracker.Lifecycle.{empty, opens, closes, links, Reach, here, next}
use crypto_master.Tracker.Settled.{
  IsSound, tracker_runs-IsSound, settled_trade_stays, close_trade_once,
}
use crypto_master.Tests.Paper.{dec, calls}

abbrev pub entry : Opening
entry = record {
  symbol = text "BTC/USDT";
  side = TradeSide.long;
  entry_price = dec 50;
  entry_quantity = dec 100;
  mode = paper;
  leverage = 10;
  entry_order_id = some (text "o1");
  performance_record_id = none;
  sub_account_id = text "main";
  fees = dec 5;
  stop_loss = some (dec 48);
  take_profit = some (dec 55);
}

abbrev exit : Closing
exit = record {
  exit_price = dec 52;
  exit_quantity = none;
  close_reason = text "take_profit";
  exit_order_id = none;
  fees = dec 6;
}

abbrev one_open : Store
one_open = (open_trade (text "t1") 7 entry empty).1

abbrev pub t1 : Trade
t1 = new_trade (text "t1") 7 entry

abbrev one_closed : Store
one_closed = (close_trade ⦃c = fixed⦄ (text "t1") 9 exit one_open).1

abbrev t1_closed : Trade
t1_closed = closed_trade ⦃c = fixed⦄ 9 exit t1

abbrev linked : Store
linked = (link_to_performance (text "t1") (text "p1") one_closed).1

-- 2 on each of 100, less the fees of 5 and 6.
net_profit : t1_closed.pnl ≡ some (dec 189)
unfolding calls
net_profit = refl

queries :
    (get_open_trades (some paper) one_open ≡ t1 ∷ [])
    × (get_open_trades (some paper) one_closed ≡ [])
    × (get_trades_by_date_range 1 7 none one_open ≡ t1 ∷ [])
    × (get_trades_by_date_range 8 9 none one_open ≡ [])
    × (get_trades_by_performance_record (text "p1") linked
        ≡ record t1_closed { performance_record_id = some (text "p1") } ∷ [])
unfolding calls get_open_trades get_trades_by_date_range get_trades_by_performance_record
    load_trades link_to_performance
queries = (refl, refl, refl, refl, refl)

cancel_of_closed : cancel_trade (text "t1") 10 one_closed ≡ (none, one_closed)
unfolding calls cancel_trade
cancel_of_closed = refl

closed_run : Reach ⦃c = fixed⦄ empty one_closed
unfolding calls
closed_run = next (next here (opens (text "t1") 7 entry refl)) (closes (text "t1") 9 exit)

tracker_runs-IsSound_example : IsSound one_closed
tracker_runs-IsSound_example = tracker_runs-IsSound ⦃c = fixed⦄ one_closed closed_run

one_closed-IsSound : IsSound one_closed
one_closed-IsSound = tracker_runs-IsSound ⦃c = fixed⦄ one_closed closed_run

close_trade_once_example :
    let (result, s') = close_trade ⦃c = fixed⦄ (text "t1") 9 exit one_open in
    (result ≡ some t1_closed)
    × (t1_closed.status ≡ closed)
    × (t1_closed.pnl
        ≡ some (
            sub ⦃c = fixed⦄
              (pnl_for_trade ⦃c = fixed⦄ (dec 50) (dec 52) (or_entry none (dec 100)) TradeSide.long)
              (add ⦃c = fixed⦄ (dec 5) (dec 6))))
    × (get_trade (text "t1") s' ≡ some t1_closed)
    × (close_trade ⦃c = fixed⦄ (text "t1") 10 exit s' ≡ (none, s'))
unfolding calls
close_trade_once_example =
    close_trade_once ⦃c = fixed⦄ (text "t1") (text "t1") 9 10 exit exit one_open t1
      (record { in_backtest = tt; in_paper = (refl, tt); in_live = tt }) refl refl

settled_trade_stays_example :
    (t' : Trade) × (get_trade (text "t1") linked ≡ some t')
    × (t' ≡ record t1_closed { performance_record_id = t'.performance_record_id })
unfolding calls
settled_trade_stays_example =
    settled_trade_stays ⦃c = fixed⦄ (text "t1") t1_closed one_closed linked one_closed-IsSound refl
      refl (next here (links (text "t1") (text "p1")))

get_trade-update_trade_example :
    get_trade (text "t1") (update_trade t1_closed one_open) ≡ some t1_closed
unfolding calls
get_trade-update_trade_example =
    get_trade-update_trade (text "t1") (text "t1") one_open t1 t1_closed
      (record { in_backtest = tt; in_paper = (refl, tt); in_live = tt }) refl refl refl
