-- ===== src/Client.antt =====
-- `connectChat` of priv/ui/js/client.js: the browser's socket client.
pub mod Types
pub mod Options
pub mod OptionsChecked
pub mod Seq
pub mod Fresh
pub mod Core
pub mod Message
pub mod Call
pub mod Steps
pub mod Entries
pub mod Frames
pub mod Books
pub mod Deadlines
pub mod Phases
pub mod Replies
pub mod Closed
pub mod Enqueued
pub mod Requests
mod Tests
