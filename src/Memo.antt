-- ===== src/Memo.antt =====
-- The evaluation context of a request: src/strategy_engine/indicators/evaluation_context.py, and the
-- loop over the variants of src/strategy_engine/strategies/application/evaluate_range_batch.py.
pub mod Failure
pub mod Counts
pub mod State
pub mod Batch
pub mod Refine
pub mod Stream
pub mod Induct
pub mod Balance
pub mod Retain
pub mod Once
pub mod Cleared
pub mod Finish
mod Tests
