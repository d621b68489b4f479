-- ===== src/Potential.antt =====
-- The prices of an entry that a touch of the anchor would open
-- (src/strategy_engine/strategies/ema_pullback/potential_entries.py).
pub mod Project
pub mod Prices
pub mod Sides
mod Tests
