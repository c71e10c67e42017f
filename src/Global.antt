-- ===== src/Global.antt =====
-- The script for pages without modules, priv/ui/wiregrid.js.
pub mod Composer
pub mod SameComposer
pub mod Messages
mod Tests
