-- ===== src/Live.antt =====
-- The start of the history that a live calculation loads
-- (src/strategy_engine/strategies/live_calculation/plan_window.py).
pub mod Multiple
pub mod Window
pub mod Rounding
pub mod Resolved
pub mod Aligned
mod Tests
