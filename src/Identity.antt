-- ===== src/Identity.antt =====
-- The parameter values of node identities: src/strategy_engine/domain/node_identity.py.
pub mod Canonical
pub mod Injective
pub mod Node
pub mod Order
pub mod Members
pub mod Lookup
mod Tests
