-- ===== src/Frameless.antt =====
-- Frameless windows: their draggable regions, from the page to atom/browser/native_window_views.cc, and the hit tests of
-- atom/browser/ui/views/frameless_view.cc.
pub mod Hits
pub mod Regions
mod Tests
