-- ===== src/Message/Tests.antt =====
-- src/message.rs: concrete messages, and the theorems at concrete inputs.
use miuturn.Common.{
  ℕ, ◌+◌, ◌≤◌, ◌≡◌, refl, ◌≢◌, List, [], ◌∷◌, ◌++◌, none, some, arith, length, Text,
}
use miuturn.Net.{v4, v6}
use miuturn.Message.Types.{allocate, success, unauthorized, ErrorCode, Message, cookie}
use miuturn.Message.AttrType
use miuturn.Message.Codec.{
  encode, encode_attributes, parse, scan, out_of_fuel, create_error_response_with_reason,
}
use miuturn.Message.Address.{encode_xor_address, decode_xor_address, create_binding_response_fast}
use miuturn.Message.Attribute
use miuturn.Message.RoundTrip.{
  IsMessage, stamped, total_size, parse-encode, parse_fits, scan-ne-out_of_fuel,
}
use miuturn.Message.Addresses.{
  decode-encode_xor_address, parse-fast_v6, fast-eq-encode, binding_response,
}

abbrev id : List ℕ
id = 0 ∷ 1 ∷ 2 ∷ 3 ∷ 4 ∷ 5 ∷ 6 ∷ 7 ∷ 8 ∷ 9 ∷ 10 ∷ 11 ∷ []

-- `test_message_roundtrip`: an Allocate response with the realm "test".
abbrev reply : Message
reply = record {
  header = record {
    method = allocate;
    event_type = success;
    message_length = 0;
    magic_cookie = cookie;
    transaction_id = id;
  };
  attributes = record { attr_type = AttrType.realm; value = b't' ∷ b'e' ∷ b's' ∷ b't' ∷ [] } ∷ [];
}

reply-IsMessage : IsMessage reply
unfolding encode_attributes Attribute.encode
reply-IsMessage = record { id_length = refl; sound = omega arith; fits = omega arith }

parse-encode_example : parse (encode reply ++ 7 ∷ 7 ∷ []) ≡ some (stamped reply)
parse-encode_example = parse-encode reply (7 ∷ 7 ∷ []) reply-IsMessage

parse_fits_example :
    (20 + (stamped reply).header.message_length ≤ length (encode reply ++ []))
    × (total_size reply.attributes ≤ (stamped reply).header.message_length)
parse_fits_example =
    parse_fits (encode reply ++ []) (stamped reply) (parse-encode reply [] reply-IsMessage)

scan-ne-out_of_fuel_example : scan 9 (0 ∷ 6 ∷ 0 ∷ 1 ∷ 65 ∷ 0 ∷ 0 ∷ 0 ∷ []) 0 8 [] ≢ out_of_fuel
scan-ne-out_of_fuel_example =
    scan-ne-out_of_fuel (0 ∷ 6 ∷ 0 ∷ 1 ∷ 65 ∷ 0 ∷ 0 ∷ 0 ∷ []) 0 8 [] (omega arith)

decode-encode_xor_address_example :
    decode_xor_address (encode_xor_address (v4 192 168 1 1 12345) cookie) cookie
    ≡ some (v4 192 168 1 1 12345)
decode-encode_xor_address_example =
    decode-encode_xor_address 192 168 1 1 12345 cookie
      (omega arith, omega arith, omega arith, omega arith, omega arith)

fast-eq-encode_example :
    create_binding_response_fast id (v4 192 168 1 1 12345)
    ≡ encode (binding_response id (v4 192 168 1 1 12345))
fast-eq-encode_example = fast-eq-encode id 192 168 1 1 12345

abbrev loopback_v6 : List ℕ
loopback_v6 = 0 ∷ 0 ∷ 0 ∷ 0 ∷ 0 ∷ 0 ∷ 0 ∷ 0 ∷ 0 ∷ 0 ∷ 0 ∷ 0 ∷ 0 ∷ 0 ∷ 0 ∷ 1 ∷ []

parse-fast_v6_example : parse (create_binding_response_fast id (v6 loopback_v6 3478 0 0)) ≡ none
parse-fast_v6_example = parse-fast_v6 id loopback_v6 3478 0 0 refl

abbrev no_name : ErrorCode → Text
no_name c = []

abbrev refusal : Message
refusal = create_error_response_with_reason no_name reply.header unauthorized (some (b'n' ∷ []))
