-- ===== src/Wallet.antt =====
-- exchange/paperwallet/paperwallet.go: the simulated exchange of backtests and dry runs.
-- Each child models a part of the wallet's methods or proves a property of them. A method is a
-- function on the wallet record; `none` is a panic (an index out of range, a nil pointer).
-- The mutex makes each method atomic, so a run is a sequence of calls. Logging is left out.
pub mod State
pub mod Funds
pub mod Create
pub mod Fill
pub mod Cancel
pub mod Equity
pub mod Drawdown
pub mod Evolution
pub mod Progress
pub mod Execution
pub mod Rounds
pub mod Validity
pub mod Matching
pub mod Submission
pub mod Reservation
pub mod Creation
pub mod Cancellation
pub mod Session
pub mod Conservation
pub mod Settlement
pub mod Refusal
