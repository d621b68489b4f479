-- ===== src/Untouched.antt =====
-- The untouched anchor setup (src/strategy_engine/strategies/ema_pullback/setups.py).
pub mod Setup
pub mod Meaning
mod Tests
