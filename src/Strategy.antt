-- ===== src/Strategy.antt =====
-- The dataframe of model/model.go and the strategy controller of strategy/controller.go.
pub mod Controller
pub mod Columns
pub mod Callbacks
