-- ===== src/Accelerator.antt =====
-- Accelerators: atom/browser/ui/accelerator_util.cc and atom/browser/api/atom_api_global_shortcut.cc.
pub mod Keys
pub mod Parse
pub mod Effects
pub mod Meaning
pub mod Table
pub mod Shortcuts
mod Tests
