-- ===== src/Episode.antt =====
-- The EMA stack episode: strategies/ema_pullback/stack_episode.py, under src/strategy_engine.
pub mod Data
pub mod Wave
pub mod Touches
pub mod Step
pub mod Reads
pub mod Causality
pub mod Invariant
pub mod Frame
pub mod Sound
pub mod Pass
pub mod Side
pub mod Lookup
pub mod Operand
pub mod Rows
mod Tests
