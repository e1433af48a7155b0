-- ===== src/Api.antt =====
-- src/req_tracker/api: the HTTP surface.
pub mod Security
pub mod Idempotency
pub mod Runtime
pub mod Approvals
pub mod Improvements
