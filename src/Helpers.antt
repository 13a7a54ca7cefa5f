-- ===== src/Helpers.antt =====
-- The crate tophamm-helpers.
pub mod IncrementingId
pub mod Awaiting
