-- ===== src/Entry.antt =====
-- From the direction to the entries of a side, and the decision events of a frame.
pub mod Masks
pub mod Gates
pub mod Components
pub mod Sides
pub mod Static
pub mod Lookup
pub mod Evidence
pub mod Chain
pub mod Steps
pub mod Allowed
pub mod Whole
pub mod Returns
pub mod Both
pub mod Events
pub mod Exclusive
pub mod Reclaim
pub mod Trigger
mod Tests
mod Example
