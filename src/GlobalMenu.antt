-- ===== src/GlobalMenu.antt =====
-- The menu bar that the desktop of Linux shows, atom/browser/ui/views/global_menu_bar_x11.cc: its items, which are built
-- when their menu is about to show, and what they activate.
pub mod Items
pub mod Built
pub mod Reaching
pub mod Activating
mod Tests
