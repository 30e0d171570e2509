-- ===== src/Message/AttrType.antt =====
-- src/message.rs: the attribute types, by their names in `impl Attribute` (`DATA` is
-- `data_attribute`).
use miuturn.Common.{ℕ}

abbrev pub mapped_address : ℕ
mapped_address = 0x0001

abbrev pub xor_mapped_address : ℕ
xor_mapped_address = 0x0020

abbrev pub xor_relayed_address : ℕ
xor_relayed_address = 0x0016

abbrev pub realm : ℕ
realm = 0x0014

abbrev pub nonce : ℕ
nonce = 0x0015

abbrev pub username : ℕ
username = 0x0006

abbrev pub message_integrity : ℕ
message_integrity = 0x0008

abbrev pub lifetime : ℕ
lifetime = 0x000d

abbrev pub bandwidth : ℕ
bandwidth = 0x0010

abbrev pub data_attribute : ℕ
data_attribute = 0x0013

abbrev pub channel_number : ℕ
channel_number = 0x000c

abbrev pub peer_address : ℕ
peer_address = 0x0012

abbrev pub requested_transport : ℕ
requested_transport = 0x0019

abbrev pub error_code : ℕ
error_code = 0x0009

abbrev pub software : ℕ
software = 0x8022

abbrev pub fingerprint : ℕ
fingerprint = 0x8028

abbrev pub ice_controlling : ℕ
ice_controlling = 0x8029

abbrev pub ice_controlled : ℕ
ice_controlled = 0x802a
