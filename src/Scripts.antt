-- ===== src/Scripts.antt =====
-- The renderer's side of scripts: which frames get a node environment and what the browser may ask of a page
-- (atom/renderer/atom_renderer_client.cc, atom/renderer/atom_render_view_observer.cc and
-- atom/renderer/api/atom_api_renderer_ipc.cc).
pub mod Frames
pub mod Messages
pub mod Environments
mod Tests
