-- ===== src/Overlays.antt =====
-- priv/ui/js/overlays.js: tabs and overlays.
pub mod Tabs
pub mod Selecting
pub mod Overlay
pub mod Trap
mod Tests
