-- ===== src/Protocol.antt =====
-- Custom protocols: atom/browser/net/atom_url_request_job_factory.cc,
-- atom/browser/net/adapter_request_job.cc and atom/browser/api/atom_api_protocol.cc.
pub mod Factory
pub mod Registry
pub mod Jobs
pub mod Agreement
pub mod Orderly
pub mod Roundtrip
pub mod Races
pub mod Serving
mod Tests
