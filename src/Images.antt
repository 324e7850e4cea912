-- ===== src/Images.antt =====
-- Images that scripts load from files, with one representation for each scale (atom/common/api/atom_api_native_image.cc).
pub mod Representations
pub mod Scales
mod Tests
