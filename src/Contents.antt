-- ===== src/Contents.antt =====
-- The WebContents that scripts see, atom/browser/api/atom_api_web_contents.cc: its events, its navigation, the size and
-- the background of a guest, and how it ends.
pub mod Notices
pub mod Guest
pub mod Operations
pub mod Calls
pub mod Kept
pub mod Quiet
pub mod Alive
pub mod Sizes
mod Tests
