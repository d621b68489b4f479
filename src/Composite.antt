-- ===== src/Composite.antt =====
-- The composites: children, and paths that require children or count them
-- (src/strategy_engine/strategies/ema_pullback/composite_spec.py, managed_composite.py and setups.py).
pub mod Spec
pub mod Meaning
pub mod Fold
pub mod Naive
pub mod Setup
pub mod Valid
pub mod Core
mod Tests
