-- ===== src/Bot.antt =====
-- ninjabot.go: the bot, which hands each candle to the simulated exchange, to the order controller
-- and to the strategy controller of its pair.
pub mod Exchange
pub mod Candles
pub mod Chronology
