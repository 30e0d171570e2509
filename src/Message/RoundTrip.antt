-- ===== src/Message/RoundTrip.antt =====
-- src/message.rs: what `encode` writes, `parse` reads back, and what `parse` accepts at all.
mod Header
mod Attributes
mod Whole
pub use Header.{IsHeader, parse-encode_header}
pub use Attributes.{
  IsAttribute, wire_size, total_size, length-encode_attribute, decode-encode_attribute,
}
pub use Whole.*
