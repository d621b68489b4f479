-- ===== src/Bounce.antt =====
-- The `ema_bounce_counter` setup (src/strategy_engine/strategies/ema_pullback/setups.py).
pub mod Step
pub mod Invariant
pub mod Window
mod Tests
