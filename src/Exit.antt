-- ===== src/Exit.antt =====
-- The initial exits: src/strategy_engine/strategies/ema_pullback/exits.py.
pub mod Rules
pub mod Policy
pub mod Confirm
pub mod Found
pub mod Value
pub mod Aggregate
pub mod InForce
pub mod Whole
mod Tests
