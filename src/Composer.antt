-- ===== src/Composer.antt =====
-- `bindComposer` of priv/ui/js/composer.js: the text area of a form and what it submits.
pub mod Types
pub mod Ops
pub mod Sending
pub mod Drafts
pub mod Ended
mod Tests
