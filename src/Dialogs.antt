-- ===== src/Dialogs.antt =====
-- Dialogs: atom/browser/ui/message_box_views.cc.
pub mod MessageBox
pub mod Answers
pub mod Placing
mod Tests
