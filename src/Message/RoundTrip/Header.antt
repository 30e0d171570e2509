-- ===== src/Message/RoundTrip/Header.antt =====
-- `MessageHeader::parse` after `MessageHeader::encode`.
use miuturn.Common.{ℕ, ◌/◌, ◌%◌, ◌^◌, ◌<◌, ◌≡◌, refl, List, ◌++◌, some, arith}
use miuturn.Common.{length, take_front, length-append, from_be_u16}
use miuturn.Message.Types.{
  Method, binding, allocate, refresh, send, data_message, create_permission, channel_bind,
  EventType, request, MessageHeader, cookie,
}
use miuturn.Message.Header.{
  type_field, method_of, event_of, method_bits, class_bits, parse, parse_rfc5389, encode,
  has_cookie,
}

-- A type field is a `u16`, and it keeps its method and its class apart.
type_field_lem :
    (m : Method) (e : EventType)
    → let t = type_field m e in
      let value = from_be_u16 (t / 256 % 256) (t % 256) in
      (method_of (method_bits value) ≡ some m) × (event_of (class_bits value) ≡ some e)
unfolding type_field method_of event_of method_bits class_bits
type_field_lem binding request = (refl, refl)
type_field_lem binding _ = (refl, refl)
type_field_lem allocate request = (refl, refl)
type_field_lem allocate _ = (refl, refl)
type_field_lem refresh request = (refl, refl)
type_field_lem refresh _ = (refl, refl)
type_field_lem send request = (refl, refl)
type_field_lem send _ = (refl, refl)
type_field_lem data_message request = (refl, refl)
type_field_lem data_message _ = (refl, refl)
type_field_lem create_permission request = (refl, refl)
type_field_lem create_permission _ = (refl, refl)
type_field_lem channel_bind request = (refl, refl)
type_field_lem channel_bind _ = (refl, refl)

-- A header whose length is a `u16`, with the cookie and a transaction id of twelve bytes.
pub record IsHeader (h : MessageHeader) : Type 0 where
  pub fits : h.message_length < 2 ^ 16
  pub cookie_set : h.magic_cookie ≡ cookie
  pub id_length : length h.transaction_id ≡ 12

pub length-encode_header :
    (h : MessageHeader) → length h.transaction_id ≡ 12 → length (encode h) ≡ 20
unfolding encode
length-encode_header h e = omega (arith, e)

pub parse-encode_header :
    (h : MessageHeader) (rest : List ℕ) → IsHeader h → parse (encode h ++ rest) ≡ some h
unfolding parse parse_rfc5389 encode has_cookie
parse-encode_header h rest v = ground (
  arith,
  v.fits,
  v.cookie_set,
  type_field_lem h.method h.event_type,
  take_front 12 h.transaction_id rest v.id_length,
  length-append h.transaction_id rest,
)
