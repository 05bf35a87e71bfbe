-- ===== src/Paper.antt =====
-- src/trading/paper.py: the simulated trader.
pub mod Balance
pub mod Symbols
pub mod State
pub mod Trading
pub mod Reconcile
pub mod Repair
pub mod Margins
pub mod Close
pub mod Open
pub mod Effects
pub mod Residual
pub mod Ledger
pub mod Entry
pub mod Orphan
pub mod Run
pub mod Equity
pub mod Marked
pub mod Startup
pub mod Valid
pub mod Sync
pub mod InSync
pub mod Session
pub mod Settle
pub mod Elsewhere
pub mod Strays
pub mod Boot
pub mod Restart
