-- ===== src/Hooks.antt =====
-- The hooks of priv/ui/js/liveview.js: what `mounted` binds pushes to the server.
pub mod Pushes
pub mod Faithful
mod Tests
