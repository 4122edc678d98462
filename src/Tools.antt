-- ===== src/Tools.antt =====
-- The helpers of strategies in tools/.
pub mod Trailing
pub mod Scheduler
