-- ===== src/DevTools.antt =====
-- The files that the developer tools save: atom/browser/native_window.cc.
pub mod Files
pub mod Keeping
pub mod Contents
mod Tests
