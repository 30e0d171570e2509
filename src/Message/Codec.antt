-- ===== src/Message/Codec.antt =====
-- src/message.rs, `Message` and the functions that make responses.
use miuturn.Common.{
  ℕ, zero, suc, ◌+◌, ◌*◌, ◌/◌, ◌%◌, ◌^◌, List, [], ◌∷◌, ◌++◌, Option, none, some, true, false, ◌||◌,
  ◌>>=◌,
}
use miuturn.Common.{ltb, ◌==◌, if◌then◌else◌, length, find, slice, be_u32, bit_or, Text}
use miuturn.Message.Types.{
  EventType, success, error, ErrorCode, code, MessageHeader, Attribute, Message, cookie,
}
use miuturn.Message.AttrType
use miuturn.Message.Header
use miuturn.Message.Attribute
use miuturn.Message.Attribute.{padding}

-- How the loop over the attributes ends. `out_of_fuel` is no result of the program.
pub data Scan : Type 0 where
  finished : List Attribute → Scan
  refused : Scan
  out_of_fuel : Scan

-- `while offset < end_offset`: one round takes a whole attribute with its padding.
unfoldable pub scan : ℕ → List ℕ → ℕ → ℕ → List Attribute → Scan
scan zero bytes offset end_offset attributes = out_of_fuel
scan (suc fuel) bytes offset end_offset attributes = elim (ltb offset end_offset) [
  | false ↦ finished attributes
  | true ↦ elim (ltb end_offset (offset + 4)) [
    | true ↦ refused
    | false ↦ elim (Attribute.decode (slice bytes offset end_offset)) [
      | none ↦ finished attributes
      | some attr ↦
          let attr_len = length attr.value + 4 in
          let total_attr_size = attr_len + padding attr_len in
          elim (total_attr_size == 0 || ltb end_offset (offset + total_attr_size)) [
            | true ↦ refused
            | false ↦
                scan fuel bytes (offset + total_attr_size) end_offset (attributes ++ attr ∷ [])
          ]
    ]
  ]
]

abbrev pub scanned : Scan → Option (List Attribute)
scanned (finished attributes) = some attributes
scanned refused = none
scanned out_of_fuel = none

-- Every round takes four bytes at least, so one more round than there are bytes is enough.
unfoldable pub parse : List ℕ → Option Message
parse bytes = if ltb (length bytes) 20 then none else do
  header ← Header.parse bytes
  let total_length = 20 + header.message_length
  let loop = scan (suc (length bytes)) bytes 20 total_length []
  attributes ← if ltb (length bytes) total_length then none else scanned loop
  some (record { header = header; attributes = attributes })

unfoldable pub encode_attributes : List Attribute → List ℕ
encode_attributes [] = []
encode_attributes (a ∷ rest) = Attribute.encode a ++ encode_attributes rest

-- The header is written with the length of the attributes, as a `u16`, and the cookie.
unfoldable pub encode : Message → List ℕ
encode m =
    let attr_buf = encode_attributes m.attributes in
    let header = record (m.header) {
      message_length = length attr_buf % 2 ^ 16;
      magic_cookie = cookie;
    } in
    Header.encode header ++ attr_buf

unfoldable pub add_attribute : Message → Attribute → Message
add_attribute m attr = record m { attributes = m.attributes ++ attr ∷ [] }

unfoldable pub get_attribute : Message → ℕ → Option Attribute
get_attribute m attr_type = find (λ a. a.attr_type == attr_type) m.attributes

-- A response answers the request: its method and its transaction id.
unfoldable pub response_to : MessageHeader → EventType → Message
response_to header event_type = record {
  header = record {
    method = header.method;
    event_type = event_type;
    message_length = 0;
    magic_cookie = cookie;
    transaction_id = header.transaction_id;
  };
  attributes = [];
}

-- `format!("{:?}", code)`, the name of the variant, is a parameter: the text is the compiler's.
module _ (debug_name : ErrorCode → Text) where
  unfoldable pub create_error_response_with_reason :
      MessageHeader → ErrorCode → Option Text → Message
  unfolding response_to add_attribute code
  create_error_response_with_reason header error_code reason =
      let class = code error_code / 100 in
      let number = code error_code % 100 in
      let text : Text = elim reason [ none ↦ debug_name error_code | some r ↦ r ] in
      add_attribute (response_to header error) (record {
        attr_type = AttrType.error_code;
        value = be_u32 (bit_or (class * 256 % 2 ^ 32) number) ++ text;
      })

  unfoldable pub create_error_response : MessageHeader → ErrorCode → Message
  unfolding create_error_response_with_reason
  create_error_response header error_code = create_error_response_with_reason header error_code none

unfoldable pub create_success_response : MessageHeader → Message
unfolding response_to
create_success_response header = response_to header success
