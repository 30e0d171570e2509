-- ===== src/Message/Header.antt =====
-- src/message.rs, `MessageHeader`: the header of a STUN message. A byte string is a list of
-- numbers below 256, and a shift is a division or a product by a power of 2.
use miuturn.Common.{ℕ, ◌+◌, ◌*◌, ◌/◌, ◌%◌, ◌^◌, List, ◌++◌, Option, none, some, Bool, ◌&&◌, ◌>>=◌}
use miuturn.Common.{bit_and, bit_or, ltb, ◌==◌, if◌then◌else◌, length, get_or, take, drop}
use miuturn.Common.{from_be_u16, be_u16, be_u32}
use miuturn.Message.Types.{
  Method, binding, allocate, refresh, send, data_message, create_permission, channel_bind,
  EventType, request, indication, success, error, MessageHeader, cookie,
}

-- The discriminants of the two enums.
unfoldable pub method_val : Method → ℕ
method_val binding = 0x0001
method_val allocate = 0x0003
method_val refresh = 0x0004
method_val send = 0x0006
method_val data_message = 0x0007
method_val create_permission = 0x0008
method_val channel_bind = 0x0009

unfoldable pub class_val : EventType → ℕ
class_val request = 0
class_val indication = 1
class_val success = 2
class_val error = 3

-- The two matches of `parse`, which both of its formats share.
unfoldable pub method_of : ℕ → Option Method
method_of v =
    if v == 0x0001
    then some binding
    else if v == 0x0003
    then some allocate
    else if v == 0x0004
    then some refresh
    else if v == 0x0006
    then some send
    else if v == 0x0007
    then some data_message
    else if v == 0x0008
    then some create_permission
    else if v == 0x0009
    then some channel_bind
    else none

unfoldable pub event_of : ℕ → Option EventType
event_of c =
    if c == 0
    then some request
    else if c == 1
    then some indication
    else if c == 2
    then some success
    else if c == 3
    then some error
    else none

-- `data[i]`, for an index that is in range.
abbrev pub byte : List ℕ → ℕ → ℕ
byte data_bytes i = get_or data_bytes i 0

unfoldable pub has_cookie : List ℕ → Bool
has_cookie bytes =
    byte bytes 4 == 0x21 && byte bytes 5 == 0x12 && byte bytes 6 == 0xA4 && byte bytes 7 == 0x42

-- The type field of RFC 5389: four bits of the method, a class bit, three bits, a class bit, five.
unfoldable pub method_bits : ℕ → ℕ
method_bits value =
    bit_or (bit_or (bit_and value 0x000F) (bit_and (value / 2) 0x0070)) (bit_and (value / 4) 0x0F80)

unfoldable pub class_bits : ℕ → ℕ
class_bits value = bit_or (bit_and (value / 16) 1) (bit_and (value / 128) 2)

unfoldable pub parse_rfc5389 : List ℕ → Option MessageHeader
parse_rfc5389 bytes = do
  let value = from_be_u16 (byte bytes 0) (byte bytes 1)
  method ← method_of (method_bits value)
  event_type ← event_of (class_bits value)
  some (record {
    method = method;
    event_type = event_type;
    message_length = from_be_u16 (byte bytes 2) (byte bytes 3);
    magic_cookie = cookie;
    transaction_id = take 12 (drop 8 bytes);
  })

-- The format without a cookie, whose transaction id begins at byte 4.
unfoldable pub parse_rfc3489 : List ℕ → Option MessageHeader
parse_rfc3489 bytes = if ltb (length bytes) 16 then none else fields
  where
    msg_type : ℕ
    msg_type = from_be_u16 (byte bytes 0) (byte bytes 1)

    first_byte : ℕ
    first_byte = msg_type / 256 % 256

    second_byte : ℕ
    second_byte = bit_and msg_type 0xFF

    fields : Option MessageHeader
    fields = do
      method ←
          method_of (bit_or (bit_and first_byte 0x3E * 128 % 2 ^ 16) (bit_and second_byte 0x0F))
      event_type ← event_of (bit_or (bit_and first_byte 0x01) (bit_and second_byte 0x10 / 8))
      some (record {
        method = method;
        event_type = event_type;
        message_length = from_be_u16 (byte bytes 2) (byte bytes 3);
        magic_cookie = cookie;
        transaction_id = take 12 (drop 4 bytes);
      })

unfoldable pub parse : List ℕ → Option MessageHeader
unfolding has_cookie parse_rfc5389 parse_rfc3489
parse bytes =
    if ltb (length bytes) 20
    then none
    else if has_cookie bytes
    then parse_rfc5389 bytes
    else parse_rfc3489 bytes

-- The sums stay below 2 ^ 16, since each term is masked.
unfoldable pub type_field : Method → EventType → ℕ
unfolding method_val class_val
type_field method event_type =
    let m = method_val method in
    let c = class_val event_type in
    bit_and m 0x000F
    + bit_and m 0x0070 * 2
    + bit_and m 0x0F80 * 4
    + bit_and c 1 * 16
    + bit_and c 2 * 128

unfoldable pub encode : MessageHeader → List ℕ
encode h =
    be_u16 (type_field h.method h.event_type)
    ++ (be_u16 h.message_length ++ (be_u32 h.magic_cookie ++ h.transaction_id))
