-- ===== src/Context.antt =====
-- Contexts and the gates that read them
-- (src/strategy_engine/strategies/ema_pullback/contexts.py and context_consumption.py).
pub mod Gate
pub mod Agree
pub mod Bundle
mod Tests
