-- ===== src/Renderer.antt =====
-- What the browser process tells a renderer and what it knows of it: atom/browser/web_view_manager.cc,
-- atom/browser/atom_browser_client.cc, and the options of atom/browser/native_window.cc.
pub mod Guests
pub mod Windows
pub mod Client
pub mod Attach
pub mod Navigation
pub mod Moves
mod Tests
