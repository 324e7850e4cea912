-- ===== src/Asar.antt =====
-- Asar archives: atom/common/asar/archive.cc, atom/common/asar/asar_util.cc and
-- atom/browser/net/asar/url_request_asar_job.cc.
pub mod Header
pub mod Archive
pub mod Links
pub mod Depth
pub mod Info
pub mod Copies
pub mod Job
pub mod Steps
pub mod Reading
pub mod Locate
pub mod Search
mod Tests
