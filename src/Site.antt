-- ===== src/Site.antt =====
-- The script of the manual, site/manual.js: its highlighter and its search.
pub mod Keywords
pub mod Scan
pub mod Highlight
pub mod Blocks
pub mod Search
mod Tests
