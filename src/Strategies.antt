-- ===== src/Strategies.antt =====
-- The strategies of strategy/strategies, on the dataframe and a broker.
pub mod Broker
pub mod Fibonacci
pub mod Totality
pub mod Causality
pub mod Pullback
pub mod Dca
pub mod CrossEma
