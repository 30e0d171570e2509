-- ===== src/Ports.antt =====
-- src/allocation.rs, `PortAllocator`: the relay ports as a bitmap.
pub mod Bitmap
pub mod Word
pub mod Allocator
pub mod Effects
pub mod Outcome
pub mod Count
pub mod Calls
mod Tests
