-- ===== src/Tray.antt =====
-- The icons of the notification area of Windows (atom/browser/ui/win/notify_icon_host.cc and notify_icon.cc).
pub mod Icons
pub mod Finding
pub mod Showing
pub mod Recreating
mod Tests
