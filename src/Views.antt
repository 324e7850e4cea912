-- ===== src/Views.antt =====
-- The window with a menu bar, as built for X11: atom/browser/native_window_views.cc and atom/browser/ui/views.
pub mod MenuBar
pub mod Window
pub mod Keys
pub mod Children
pub mod Coherent
pub mod Sizes
pub mod Taps
pub mod Combined
mod Tests
