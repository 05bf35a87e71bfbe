-- ===== src/Portfolio.antt =====
-- src/trading/portfolio.py: what the trades of a sub-account are worth, and the snapshots that are
-- kept of it. The clock comes in as an argument; files are read and written without fault.
pub mod Books
pub mod Marks
pub mod Snapshots
pub mod Account
pub mod Conserved
use crypto_master.Prelude.{
  ℕ, Bool, true, false, Option, none, some, List, [], ◌∷◌, ◌++◌, ◌&&◌, if◌then◌else◌, leb, keep,
  length, map,
}
use crypto_master.Prelude.Int.{pos}
use crypto_master.Text.{Text}
use crypto_master.Dict.{Dict, lookup, insert}
use crypto_master.Decimal.{Decimal, Context, add}
use crypto_master.TradingMath.{pnl_for_trade}
use crypto_master.Tracker.{
  Mode, backtest, paper, live, Status, opened, closed, cancelled, Trade, Store, is_open,
  load_trades, get_open_trades,
}

-- `status == "closed"`
abbrev pub is_closed : Status → Bool
is_closed closed = true
is_closed opened = false
is_closed cancelled = false

abbrev pub get_decimal : Option Decimal → Decimal
get_decimal none = pos 0
get_decimal (some d) = d

pub record AssetSnapshot : Type 0 where
  pub timestamp : ℕ
  pub mode : Mode
  pub sub_account_id : Text
  pub quote_currency : Text
  pub balances : Dict Decimal
  pub realized_pnl : Decimal
  pub unrealized_pnl : Decimal
  pub current_prices : Dict Decimal

pub record Portfolio : Type 0 where
  pub mode : Mode
  pub sub_account_id : Text
  pub quote_currency : Text
  pub balances : Dict Decimal
  pub realized_pnl : Decimal
  pub unrealized_pnl : Decimal
  pub open_positions_count : ℕ
  pub closed_trades_count : ℕ

-- The snapshots of one mode: none where it has no directory, else a file for each sub-account.
abbrev pub ModeDirectory : Type 0
ModeDirectory = Option (Dict (List AssetSnapshot))

pub record SnapshotFiles : Type 0 where
  pub of_backtest : ModeDirectory
  pub of_paper : ModeDirectory
  pub of_live : ModeDirectory

abbrev pub directory_of : Mode → SnapshotFiles → ModeDirectory
directory_of backtest f = f.of_backtest
directory_of paper f = f.of_paper
directory_of live f = f.of_live

abbrev pub with_directory : Mode → ModeDirectory → SnapshotFiles → SnapshotFiles
with_directory backtest d f = record f { of_backtest = d }
with_directory paper d f = record f { of_paper = d }
with_directory live d f = record f { of_live = d }

abbrev pub files_in : ModeDirectory → Dict (List AssetSnapshot)
files_in none = []
files_in (some d) = d

abbrev pub listed : Option (List AssetSnapshot) → List AssetSnapshot
listed none = []
listed (some ss) = ss

-- `load_snapshots`, with no bounds; looking for the file makes the directory.
unfoldable pub load_snapshots : Mode → Text → SnapshotFiles → List AssetSnapshot × SnapshotFiles
load_snapshots m account f =
    let d = files_in (directory_of m f) in (listed (lookup account d), with_directory m (some d) f)

abbrev pub not_before : Option ℕ → ℕ → Bool
not_before none t = true
not_before (some start) t = leb start t

abbrev pub not_after : Option ℕ → ℕ → Bool
not_after none t = true
not_after (some end) t = leb t end

-- `load_snapshots`, with its bounds.
unfoldable pub load_between :
    Option ℕ → Option ℕ → Mode → Text → SnapshotFiles → List AssetSnapshot × SnapshotFiles
unfolding load_snapshots
load_between start end m account f =
    let (ss, f') = load_snapshots m account f in
    (keep (λ s. not_before start s.timestamp && not_after end s.timestamp) ss, f')

-- `_save_snapshots`
unfoldable pub save_snapshots : Mode → Text → List AssetSnapshot → SnapshotFiles → SnapshotFiles
save_snapshots m account ss f =
    with_directory m (some (insert account ss (files_in (directory_of m f)))) f

-- `delete_snapshots`: the directory of the mode goes, with the files of every sub-account.
abbrev pub without : ModeDirectory → Mode → SnapshotFiles → Bool × SnapshotFiles
without none m f = (false, f)
without (some d) m f = (true, with_directory m none f)

unfoldable pub delete_snapshots : Mode → SnapshotFiles → Bool × SnapshotFiles
delete_snapshots m f = without (directory_of m f) m f

-- `quote_balance` of a portfolio and of a snapshot.
unfoldable pub quote_balance : Text → Dict Decimal → Decimal
quote_balance currency balances = get_decimal (lookup currency balances)

module _ ⦃c : Context⦄ where
  unfoldable pub total_equity : Portfolio → Decimal
  unfolding quote_balance
  total_equity p = add (quote_balance p.quote_currency p.balances) p.unrealized_pnl

  unfoldable pub total_pnl : Portfolio → Decimal
  total_pnl p = add p.realized_pnl p.unrealized_pnl

  unfoldable pub snapshot_equity : AssetSnapshot → Decimal
  unfolding quote_balance
  snapshot_equity s = add (quote_balance s.quote_currency s.balances) s.unrealized_pnl

  abbrev pub plus_pnl : Bool → Option Decimal → Decimal → Decimal
  plus_pnl false pnl total = total
  plus_pnl true none total = total
  plus_pnl true (some pnl) total = add total pnl

  -- The loop of `calculate_realized_pnl`.
  unfoldable pub realized_from : Decimal → List Trade → Decimal
  realized_from total [] = total
  realized_from total (t ∷ ts) = realized_from (plus_pnl (is_closed t.status) t.pnl total) ts

  unfoldable pub calculate_realized_pnl : Mode → Store → Decimal
  unfolding realized_from load_trades
  calculate_realized_pnl m s = realized_from (pos 0) (load_trades (some m) s)

  abbrev pub plus_mark : Trade → Option Decimal → Decimal → Decimal
  plus_mark t none total = total
  plus_mark t (some price) total =
      add total (pnl_for_trade t.entry_price price t.entry_quantity t.side)

  -- The loop of `calculate_unrealized_pnl`.
  unfoldable pub unrealized_from : Dict Decimal → Decimal → List Trade → Decimal
  unrealized_from prices total [] = total
  unrealized_from prices total (t ∷ ts) =
      unrealized_from prices (plus_mark t (lookup t.symbol prices) total) ts

  unfoldable pub calculate_unrealized_pnl : Mode → Dict Decimal → Store → Decimal
  unfolding unrealized_from get_open_trades
  calculate_unrealized_pnl m prices s = unrealized_from prices (pos 0) (get_open_trades (some m) s)

  unfoldable pub get_portfolio :
      Mode → Text → Text → Dict Decimal → Dict Decimal → Store → Portfolio
  unfolding calculate_realized_pnl calculate_unrealized_pnl load_trades
  get_portfolio m account currency balances prices s =
      let trades = load_trades (some m) s in
      record {
        mode = m;
        sub_account_id = account;
        quote_currency = currency;
        balances = balances;
        realized_pnl = calculate_realized_pnl m s;
        unrealized_pnl = calculate_unrealized_pnl m prices s;
        open_positions_count = length (keep (λ t. is_open t.status) trades);
        closed_trades_count = length (keep (λ t. is_closed t.status) trades);
      }

  unfoldable pub record_snapshot :
      Mode
      → Text
      → Text
      → Dict Decimal
      → Dict Decimal
      → ℕ
      → Store
      → SnapshotFiles
      → AssetSnapshot × SnapshotFiles
  unfolding calculate_realized_pnl calculate_unrealized_pnl load_snapshots save_snapshots
  record_snapshot m account currency balances prices now s f =
      let snapshot : AssetSnapshot = record {
        timestamp = now;
        mode = m;
        sub_account_id = account;
        quote_currency = currency;
        balances = balances;
        realized_pnl = calculate_realized_pnl m s;
        unrealized_pnl = calculate_unrealized_pnl m prices s;
        current_prices = prices;
      } in
      let (ss, f') = load_snapshots m account f in
      (snapshot, save_snapshots m account (ss ++ snapshot ∷ []) f')

  unfoldable pub get_equity_curve :
      Option ℕ → Option ℕ → Mode → Text → SnapshotFiles → List (ℕ × Decimal) × SnapshotFiles
  unfolding snapshot_equity load_between
  get_equity_curve start end m account f =
      let (ss, f') = load_between start end m account f in
      (map (λ s. (s.timestamp, snapshot_equity s)) ss, f')
