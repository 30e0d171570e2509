-- ===== src/Sds.antt =====
-- src/sds.rs: certificates that a control plane sends.
pub mod Types
pub mod Subscription
pub mod Extract
pub mod Watch
pub mod Selected
pub mod Acknowledged
mod Tests
