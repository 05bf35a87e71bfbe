-- ===== src/Paper/Reconcile.antt =====
-- `_reconcile_locked_to_open_positions` and `force_close_orphan` of src/trading/paper.py. The code
-- visits a set of currencies, in no fixed order; a currency outside the set has nothing locked and
-- nothing expected, so the walk here over all balances repairs the same ones.
use crypto_master.Prelude.{
  ℕ, Bool, true, false, Option, none, some, List, [], ◌∷◌, ◌++◌, ◌&&◌, if◌then◌else◌, is_some,
}
use crypto_master.Prelude.Int.{pos}
use crypto_master.Text.{Text, text, same}
use crypto_master.Dict.{Dict, lookup, erase}
use crypto_master.Decimal.{Decimal, Context, add, sub, eq}
use crypto_master.Result.{ok, err}
use crypto_master.Tracker.{Trade, close_trade, get_trade, is_open}
use crypto_master.Paper.Balance.{PaperBalance, total, unlock}
use crypto_master.Paper.State.{OpenPosition, Event, repaired_bounds, Config, PaperTrader}
use crypto_master.Paper.Trading.{with_balance, save_balances, closing}

module _ ⦃c : Context⦄ where
  -- `expected_by_currency[currency]`: the margins of the open positions in a currency, added up in
  -- the order of the positions.
  unfoldable pub expected_from : Decimal → Text → Dict OpenPosition → Decimal
  expected_from acc currency [] = acc
  expected_from acc currency ((k, o) ∷ ps) =
      expected_from (if same currency o.quote_currency then add acc o.margin else acc) currency ps

  unfoldable pub expected_locked : Text → Dict OpenPosition → Decimal
  unfolding expected_from
  expected_locked currency ps = expected_from (pos 0) currency ps

  -- The repair of one balance.
  unfoldable pub repair : Decimal → PaperBalance → PaperBalance
  repair expected b =
      if eq b.locked expected
      then b
      else record b { locked = expected; free = sub (total b) expected }

  unfoldable pub repair_all : Dict OpenPosition → Dict PaperBalance → Dict PaperBalance
  unfolding repair
  repair_all ps [] = []
  repair_all ps ((k, b) ∷ bs) = (k, repair (expected_locked k ps) b) ∷ repair_all ps bs

  unfoldable pub repairs : Dict OpenPosition → Dict PaperBalance → List Event
  repairs ps [] = []
  repairs ps ((k, b) ∷ bs) =
      let rest = repairs ps bs in
      if eq b.locked (expected_locked k ps)
      then rest
      else repaired_bounds k b (repair (expected_locked k ps) b) ∷ rest

  abbrev pub any_event : List Event → Bool
  any_event [] = false
  any_event (_ ∷ _) = true

  unfoldable pub reconcile_locked : Config → PaperTrader → PaperTrader
  unfolding repair_all repairs
  reconcile_locked g s =
      let log = repairs s.open_positions s.balances in
      let s' = record s {
        balances = repair_all s.open_positions s.balances;
        events = s.events ++ (if g.has_activity_log then log else []);
      } in
      if any_event log then save_balances s' else s'

  -- The unlock in `force_close_orphan`, where an error is only logged: the state, and whether the
  -- balance changed.
  unfoldable pub release_margin :
      OpenPosition → Option PaperBalance → PaperTrader → PaperTrader × Bool
  release_margin o none s = (s, false)
  release_margin o (some b) s = elim (unlock o.margin b) [
    | ok b' ↦ (with_balance o.quote_currency b' s, true)
    | err e ↦ (s, false)
  ]

  unfoldable pub pop_orphan : Text → Option OpenPosition → PaperTrader → PaperTrader × Bool
  unfolding release_margin
  pop_orphan trade_id none s = (s, false)
  pop_orphan trade_id (some o) s =
      release_margin o (lookup o.quote_currency s.balances)
        (record s { open_positions = erase trade_id s.open_positions })

  -- From the pop on.
  unfoldable pub close_orphan : ℕ → Text → Decimal → PaperTrader → Option Trade × PaperTrader
  unfolding pop_orphan
  close_orphan now trade_id price s =
      let (s', changed) = pop_orphan trade_id (lookup trade_id s.open_positions) s in
      let (trade, store) =
        close_trade trade_id now (closing price (text "orphan_force_close") (pos 0)) s'.store in
      let s'' = record s' { store = store } in
      (trade, if is_some trade && changed then save_balances s'' else s'')

  unfoldable pub force_close_orphan : ℕ → Text → Decimal → PaperTrader → Option Trade × PaperTrader
  unfolding close_orphan
  force_close_orphan now trade_id price s = elim (get_trade trade_id s.store) [
    | none ↦ (none, s)
    | some t ↦ if is_open t.status then close_orphan now trade_id price s else (none, s)
  ]
