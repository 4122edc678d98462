-- ===== src/Tests.antt =====
-- Runs at concrete inputs: each theorem of the results at data that meet its hypotheses.
mod Samples
mod Wallets
mod Orders
mod Settlements
mod Feeds
mod Strategies
mod Queues
mod Sessions
mod Charts
mod Legs
mod Refusals
mod Backtests
