-- ===== src/Message.antt =====
-- src/message.rs: STUN messages, their headers, attributes and addresses on the wire.
pub mod Types
pub mod AttrType
pub mod Header
pub mod Attribute
pub mod Codec
pub mod Address
pub mod RoundTrip
pub mod Addresses
pub mod Responses
mod Tests
