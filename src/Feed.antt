-- ===== src/Feed.antt =====
-- exchange/feed/csvfeed.go: candles of CSV files, resampled to the timeframe of the bot.
pub mod Timeframe
pub mod Calendar
pub mod Csv
pub mod Resampled
pub mod Periods
