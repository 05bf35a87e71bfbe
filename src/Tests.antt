-- ===== src/Tests.antt =====
-- The tests and the instances of the theorems, by the part of the program that they are about.
mod Math
mod Sizing
mod Exits
mod Paper
mod PaperRuns
mod Tracker
mod Equity
mod Correlation
mod Restart
mod Portfolio
mod Feedback
mod Proposals
mod Rotation
mod Registry
