-- ===== src/Spell.antt =====
-- Spell checking in the renderer: atom/renderer/api/atom_api_spell_check_client.cc.
pub mod Client
pub mod Checking
pub mod Swaps
pub mod Correction
mod Tests
