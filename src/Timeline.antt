-- ===== src/Timeline.antt =====
-- `createTimeline` of priv/ui/js/timeline.js: the message rows of a container, indexed by id and by
-- nonce.
pub mod Types
pub mod Dom
pub mod Index
pub mod Ops
pub mod Rows
pub mod Nonces
pub mod Inv
pub mod Eviction
pub mod Placing
pub mod Renaming
pub mod Duplicates
pub mod Upserts
pub mod Starting
pub mod Kept
pub mod Runs
pub mod Origins
mod Tests
