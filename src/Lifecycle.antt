-- ===== src/Lifecycle.antt =====
-- The life of the application and its windows: atom/browser/browser.cc, atom/browser/window_list.cc
-- and the closing of windows in atom/browser/native_window.cc.
pub mod State
pub mod Browser
pub mod Closing
pub mod Events
pub mod Fullscreen
pub mod Quiet
pub mod Invariant
pub mod Quitting
pub mod Refusal
pub mod Unresponsive
mod Tests
