-- ===== src/Engine.antt =====
-- crates/engine: the trading engine of one ticker. `Position` keeps the open position, `State` the
-- engine's fields, `Scoring` and `Outputs` turn indicator outputs into a composite score, `Gates`,
-- `Exits`, `Entries` and `Tick` are the parts of `on_tick`, and `Deferred` the operations that a
-- host uses between ticks.
pub mod Position
pub mod State
pub mod Outputs
pub mod Scoring
pub mod Gates
pub mod Exits
pub mod Entries
pub mod Tick
pub mod Deferred
pub mod Aggregator
