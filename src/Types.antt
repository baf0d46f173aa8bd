-- ===== src/Types.antt =====
-- scheduler/internal/types: typed identifiers and pod events.
pub mod Ids
pub mod Base36
