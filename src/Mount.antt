-- ===== src/Mount.antt =====
-- `mountChat` of priv/ui/js/mount.js: a client, a timeline and a composer together.
pub mod Topic
pub mod Types
pub mod Ops
pub mod Parts
pub mod Steps
pub mod Run
pub mod Sound
pub mod Spelling
mod Tests
