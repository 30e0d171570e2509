-- ===== src/Health.antt =====
-- src/health.rs: the HTTP server with the administration of users and access rules.
pub mod State
pub mod Access
pub mod Edits
pub mod Urls
pub mod Routes
pub mod Outcomes
pub mod Saved
pub mod Guarded
mod Tests
