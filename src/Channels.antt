-- ===== src/Channels.antt =====
-- src/allocation.rs: the table of channel bindings.
pub mod Table
pub mod Laws
pub mod Histories
mod Tests
