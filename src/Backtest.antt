-- ===== src/Backtest.antt =====
-- The requests of server/handler/backtest.go.
pub mod Request
pub mod Accepted
