-- ===== src/Lib.antt =====
-- Crypto Master trades crypto currencies under strategies: proposals are sized by a risk policy,
-- validated, opened as positions of a paper or live trader, monitored for their stop and target,
-- closed, and kept in a trade history. This library models the core of the paper side of it,
-- from the arithmetic up to whole runs of the trader and its restart, and beside it the loop
-- that develops new strategies, the history of proposals, the rotated logs and the registry of
-- sub-accounts.
--
-- Decimal models Python's `decimal.Decimal`: an amount is an integral number of quanta, and a
-- `Context` gives the number of quanta in one and the rounding of a quotient. Every operation
-- rounds once, as the source's do. The rounding is a parameter: `IsRounding` says that it is
-- monotone, odd, keeps zero and does not round its own results again; `IsExact`, that a sum of
-- amounts needs no rounding, which the source relies on where it moves an amount between two
-- fields. Decimal.Exact is a context that has both. Text is `str` as code points and Dict a dict
-- in insertion order, with distinct keys.
--
-- TradingTypes and TradingMath model src/utils/trading_types.py and src/utils/trading_math.py:
-- the sides, the average true range, the stop floor and the realised profit; TradingMath also
-- has the unrealised profit of `Position` in src/models.py. Exit models the exit decision of
-- src/trading/base.py and the price and leverage checks of src/trading/strategy.py. RiskPolicy
-- models the policy of src/trading/sub_account.py with its validators in their order, and
-- RiskSizing `compute_risk_budget_size` of src/trading/risk_sizing.py, with a division by zero
-- as a result of its own.
--
-- Tracker models src/strategy/trade_history.py. Its state is a `Store`, the three trade files of
-- a sub-account; each method is a function of the store that returns the new one, with the
-- trade's id, the clock and the order ids as arguments. Files are read and written without
-- fault. Tracker.Lifecycle has the calls as a step relation, under fresh ids.
--
-- Paper models src/trading/paper.py in local simulation. Paper.Balance is `PaperBalance`,
-- Paper.Symbols the quote currency of a symbol, Paper.State the trader's fields with the
-- snapshot file and the activity log, Paper.Trading `open_position` and `close_position`, cut
-- into one function for each point where the source may raise or return, Paper.Startup the
-- constructor (the balance file, the positions of the open trades with the bounds that
-- src/strategy/performance.py has for them, which raises where such a position is not a valid
-- `Position` of src/models.py, the repair where there is no balance file), Paper.Reconcile the
-- repair of the locked amounts at a start and `force_close_orphan`, and Paper.Equity the marked
-- equity. A call that raises returns its error with the state that the source leaves behind. The
-- other modules under Paper are proofs; Paper.Run has the calls as a step relation. A paper
-- trader calls the tracker on every open and close, the profit of both is `pnl_for_trade`, and
-- its exit check is that of Exit.
--
-- Portfolio models src/trading/portfolio.py over the trade files of Tracker: both profits, the
-- portfolio, and the snapshot files, a directory for each mode with a file for each sub-account.
-- Its realised profit meets the paper trader's balance in Portfolio.Account and
-- Portfolio.Conserved, its unrealised profit the trader's own in Portfolio.Marks.
--
-- Correlation models src/runtime/correlation_governor.py: Correlation.Exposures the exposures of
-- trades and the queries on them, Correlation.Groups the grouping by a dict and the sorting,
-- Correlation.Gate the warnings and the gate; it reads the trades of Tracker.
--
-- Feedback models src/feedback/loop.py and the events of src/feedback/audit.py: the strategies'
-- files, the state files of the candidates and the audit log as a `Loop`, each call of the
-- feedback loop as a function of it. The backtest, its gate and the improver, which fail or
-- report, are arguments. Feedback.Lifecycle is the graph that a candidate's status moves in,
-- Feedback.Run the calls as a step relation in which the files may be changed by others at any
-- time.
--
-- Proposals models src/proposal/interaction.py: the files of the proposals by their path in the
-- data directory, with the search for an id over accounts, the decisions, and the purge into an
-- archive, whose cutoff and month names are parameters.
--
-- Rotation models src/runtime/jsonl_rotator.py, which keeps the audit log of the feedback loop
-- and the activity log: a file for each month, the retention in months, and the read that merges
-- them by time. Feedback takes its audit log as the list of its events, within that retention.
--
-- Registry models src/trading/sub_account_registry.py on the parsed configuration: the checks of
-- each sub-account, the trader that is built for it, and the queries. The model's errors keep
-- those of building a trader apart from those of the checks; that a live trader refuses a
-- testnet is modelled, and whether a constructor of an exchange or a trader raises for another
-- reason is a parameter.
--
-- All functions are structural recursions over lists, so there is no fuel.
--
-- Not modelled: floating-point fields such as `pnl_percent`, messages and log lines, the JSON
-- form of the files and faults of the disk, the reading of the performance records, calls of an
-- exchange, and the rest of the program (the runtime engine and its filters, the ranking of
-- proposals, backtests, the promotion lab, dashboard, language-model calls).
pub mod Prelude
pub mod Text
pub mod Dict
pub mod Decimal
pub mod TradingTypes
pub mod TradingMath
pub mod Exit
pub mod RiskPolicy
pub mod RiskSizing
pub mod Result
pub mod Tracker
pub mod Paper
pub mod Portfolio
pub mod Feedback
pub mod Proposals
pub mod Rotation
pub mod Registry
pub mod Correlation
mod Tests
