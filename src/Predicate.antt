-- ===== src/Predicate.antt =====
-- The predicates of the composites: comparisons of operands, HTF states and temporal windows
-- (src/strategy_engine/strategies/ema_pullback/predicates.py), and the bars of history that they read.
pub mod Evaluate
pub mod Window
pub mod History
mod Tests
