-- ===== src/Blocker.antt =====
-- Blockers of an entry (src/strategy_engine/strategies/ema_pullback/direction_blockers.py).
pub mod Trend
pub mod Peak
pub mod Rsi
mod Tests
