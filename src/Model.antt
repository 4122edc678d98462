-- ===== src/Model.antt =====
-- The data of model/: orders, candles, accounts, series.
pub mod Candle
pub mod Session
pub mod Series
pub mod Order
pub mod Account
