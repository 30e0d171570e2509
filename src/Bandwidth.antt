-- ===== src/Bandwidth.antt =====
-- src/bandwidth.rs: token buckets, and the trackers that hold them.
pub mod Limiter
pub mod Trackers
pub mod Rate
pub mod Threads
pub mod Race
pub mod Manager
mod Tests
