-- ===== src/Extreme.antt =====
-- Range extremes by a sparse table
-- (src/strategy_engine/strategies/ema_pullback/window_extreme.py).
pub mod Table
pub mod Lattice
pub mod Window
mod Tests
