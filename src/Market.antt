-- ===== src/Market.antt =====
-- Market data contracts (src/strategy_engine/domain/ranges.py and market.py): timeframes, aligned
-- ranges and frames of bars.
pub mod Timeframe
pub mod Canonical
pub mod Frame
pub mod Grid
mod Tests
