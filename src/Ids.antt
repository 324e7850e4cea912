-- ===== src/Ids.antt =====
-- Identifiers of objects: atom/common/api/atom_api_id_weak_map.cc.
pub mod WeakMap
pub mod Collecting
pub mod Alive
mod Tests
