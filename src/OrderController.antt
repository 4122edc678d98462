-- ===== src/OrderController.antt =====
-- order/controller.go: positions, realized results, and the orders that the bot places.
pub mod Summary
pub mod Position
pub mod State
pub mod Trades
pub mod Requests
pub mod Exposure
pub mod Restored
pub mod Results
pub mod Publications
pub mod Polling
