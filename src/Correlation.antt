-- ===== src/Correlation.antt =====
-- src/runtime/correlation_governor.py: exposures across sub-accounts and the gate on duplicates. The
-- messages are left out. Exposures of backtests come from a component that is not modelled.
pub mod Exposures
pub mod Groups
pub mod Gate
pub mod Duplicates
pub mod Decision
