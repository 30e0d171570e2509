-- ===== src/Config.antt =====
-- src/config.rs and src/main.rs: the configuration, and the users and rules that come from it.
pub mod Types
pub mod Load
pub mod Save
pub mod Restore
pub mod Passwords
mod Tests
