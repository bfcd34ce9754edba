-- ===== src/Actions.antt =====
-- crates/actions: some of the actions that the engine runs: entry windows, reject gates and the
-- session close.
pub mod Atr
pub mod Build
pub mod Conditions
pub mod Entry
pub mod Exit
pub mod Sizing
pub mod Threshold
