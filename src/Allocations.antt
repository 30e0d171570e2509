-- ===== src/Allocations.antt =====
-- src/allocation.rs: the table of allocations.
pub mod Table
pub mod Create
pub mod Binding
pub mod Ownership
pub mod Preserves
pub mod Histories
pub mod Permissions
pub mod Relay
pub mod Relaying
mod Tests
