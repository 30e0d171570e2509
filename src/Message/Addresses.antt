-- ===== src/Message/Addresses.antt =====
-- src/message.rs: XOR-ed addresses read back, and the fast response against the general encoder.
use miuturn.Common.{
  ℕ, ◌%◌, ◌^◌, ◌<◌, ◌≡◌, refl, List, [], ◌∷◌, none, some, arith, bit_xor, bit_xor_lt, bit_xor_twice,
  length, length-append, be_u16_lem,
}
use miuturn.Net.{SocketAddr, v4, v6, IsV4}
use miuturn.Message.Types.{binding, success, Message, cookie}
use miuturn.Message.AttrType
use miuturn.Message.Header
use miuturn.Message.Attribute
use miuturn.Message.Codec.{encode, encode_attributes, parse}
use miuturn.Message.Address.{
  cookie_byte, cookie_port, encode_xor_address, decode_xor_address, create_binding_response_fast,
}

xor_byte : (a k : ℕ) → a < 256 → k < 256 → bit_xor (bit_xor a k) k ≡ a
xor_byte a k h hk = bit_xor_twice 8 a k h hk

xor_port : (p k : ℕ) → p < 2 ^ 16 → k < 2 ^ 16 → bit_xor (bit_xor p k) k ≡ p
xor_port p k h hk = bit_xor_twice 16 p k h hk

-- An IPv4 address that was XOR-ed with a cookie is read back with the same cookie.
pub decode-encode_xor_address :
    (a b c d p magic_cookie : ℕ)
    → IsV4 a b c d p
    → decode_xor_address (encode_xor_address (v4 a b c d p) magic_cookie) magic_cookie
      ≡ some (v4 a b c d p)
unfolding encode_xor_address decode_xor_address
decode-encode_xor_address a b c d p magic_cookie (ha, hb, hc, hd, hp) =
    let k : ℕ = cookie_port magic_cookie in
    ground (
      arith,
      bit_xor_lt 16 p k,
      be_u16_lem (bit_xor p k),
      xor_port p k,
      xor_byte a (cookie_byte magic_cookie 24),
      xor_byte b (cookie_byte magic_cookie 16),
      xor_byte c (cookie_byte magic_cookie 8),
      xor_byte d (magic_cookie % 256),
    )

-- The definitions that lay a header out.
layout : Unit {0}
unfolding Header.encode Header.type_field Header.method_val Header.class_val Header.parse
    Header.parse_rfc5389 Header.has_cookie Header.method_of Header.event_of Header.method_bits
    Header.class_bits Attribute.encode
layout = tt

-- The response that `Message::encode` would write to a Binding request.
abbrev pub binding_response : List ℕ → SocketAddr → Message
binding_response transaction_id client_addr = record {
  header = record {
    method = binding;
    event_type = success;
    message_length = 0;
    magic_cookie = cookie;
    transaction_id = transaction_id;
  };
  attributes =
      record {
        attr_type = AttrType.xor_mapped_address;
        value = encode_xor_address client_addr cookie;
      }
      ∷ [];
}

-- For an IPv4 client the fast path writes the bytes of the general encoder.
pub fast-eq-encode :
    (id : List ℕ) (a b c d p : ℕ)
    → create_binding_response_fast id (v4 a b c d p) ≡ encode (binding_response id (v4 a b c d p))
unfolding create_binding_response_fast encode encode_attributes encode_xor_address layout
fast-eq-encode id a b c d p = refl

-- For an IPv6 client it announces twelve bytes of attributes and writes eight, so that no parser
-- that checks the length accepts the response.
pub parse-fast_v6 :
    (id octets : List ℕ) (p flowinfo scope_id : ℕ)
    → length id ≡ 12
    → parse (create_binding_response_fast id (v6 octets p flowinfo scope_id)) ≡ none
unfolding create_binding_response_fast parse layout
parse-fast_v6 id octets p flowinfo scope_id e =
    ground (arith, length-append id (0 ∷ 32 ∷ 0 ∷ 8 ∷ 0 ∷ 2 ∷ 0 ∷ 0 ∷ []))
