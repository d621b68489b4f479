-- ===== src/Managed.antt =====
-- The managed-exit policy replay of one open trade
-- (src/strategy_engine/strategies/ema_pullback/managed.py).
pub mod Data
pub mod Phases
pub mod Stops
pub mod Replay
pub mod Advance
pub mod Tighten
pub mod Course
pub mod Whole
pub mod Stop
pub mod Atoms
pub mod Children
pub mod Folded
pub mod Returns
pub mod Supported
mod Tests
