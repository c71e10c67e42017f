-- ===== src/Chat.antt =====
-- The message rows of priv/ui/js/chat.js: their elements, the clicks on them, the list they stand in
-- and the jump to one of them.
pub mod Elements
pub mod Message
pub mod Clicks
pub mod Buttons
pub mod Pressed
pub mod Reached
pub mod Rows
pub mod Latest
pub mod Places
pub mod Jumping
pub mod Marks
mod Tests
