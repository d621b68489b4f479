-- ===== src/Vote.antt =====
-- The weighted vote setup: `_weighted_vote_compute` of
-- src/strategy_engine/strategies/ema_pullback/setups.py.
pub mod Score
pub mod Meaning
mod Tests
