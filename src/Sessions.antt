-- ===== src/Sessions.antt =====
-- The realtime sessions of server/handler: signal_manager.go and session_stats.go.
pub mod Manager
pub mod Recovery
pub mod Recovered
pub mod Threads
pub mod Ownership
pub mod Eviction
pub mod Turns
pub mod Safety
pub mod Exclusion
pub mod Progress
pub mod Balances
pub mod Wrapper
pub mod Stats
pub mod Summary
pub mod Chart
pub mod Timeline
pub mod Fetch
