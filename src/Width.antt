-- ===== src/Width.antt =====
-- The width setups (src/strategy_engine/strategies/ema_pullback/setups.py), which ask how far the
-- averages stand apart.
pub mod Setup
pub mod Window
pub mod Band
pub mod Inside
mod Tests
