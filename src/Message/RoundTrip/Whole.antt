-- ===== src/Message/RoundTrip/Whole.antt =====
-- `Message::parse` after `Message::encode`, and on any bytes.
use miuturn.Common.{
  ℕ, suc, ◌+◌, ◌-◌, ◌≤◌, ◌<◌, ◌^◌, ◌%◌, ◌≡◌, refl, subst, ◌≢◌, List, [], ◌++◌, some, arith,
}
use miuturn.Common.{length, slice, All, take_front, drop_front, length-append, append_assoc}
use miuturn.Message.Types.{Message, Attribute, cookie}
use miuturn.Message.Header
use miuturn.Message.Codec.{
  Scan, finished, refused, out_of_fuel, scan, encode_attributes, parse, encode, scanned,
}
use miuturn.Message.RoundTrip.Header.{parse-encode_header, length-encode_header}
use miuturn.Message.RoundTrip.Attributes.{
  IsAttribute, total_size, scan_rest, scan-scan_rest, scan_rest-encode_attributes, scan_rest-Ends,
  Ends, length-slice,
}

-- A transaction id of twelve bytes, and attributes that a `u16` counts.
pub record IsMessage (m : Message) : Type 0 where
  pub id_length : length (m.header).transaction_id ≡ 12
  pub sound : All IsAttribute m.attributes
  pub fits : length (encode_attributes m.attributes) < 2 ^ 16

-- The header that `encode` writes for a message.
abbrev pub stamped : Message → Message
stamped m = record m {
  header = record (m.header) {
    message_length = length (encode_attributes m.attributes) % 2 ^ 16;
    magic_cookie = cookie;
  };
}

scan-encode :
    (head attr_buf rest : List ℕ) (attributes : List Attribute)
    → length head ≡ 20
    → attr_buf ≡ encode_attributes attributes
    → All IsAttribute attributes
    → let bytes = head ++ (attr_buf ++ rest) in
      scan (suc (length bytes)) bytes 20 (20 + length attr_buf) [] ≡ finished attributes
scan-encode head attr_buf rest attributes e eq h =
    let bytes : List ℕ = head ++ (attr_buf ++ rest) in
    let room : 20 + length attr_buf - 20 ≡ length attr_buf = omega arith in
    let sizes : length bytes ≡ 20 + (length attr_buf + length rest) =
      omega (arith, length-append head (attr_buf ++ rest), length-append attr_buf rest) in
    ground (
      arith,
      room,
      sizes,
      eq,
      scan-scan_rest (suc (length bytes)) bytes 20 (20 + length attr_buf) [],
      drop_front 20 head (attr_buf ++ rest) e,
      take_front (length attr_buf) attr_buf rest refl,
      scan_rest-encode_attributes (suc (length bytes)) attributes [] h,
    )

-- The header comes back with the length of the attributes and the cookie, the attributes as they
-- were, and what follows the message is left alone.
pub parse-encode :
    (m : Message) (rest : List ℕ) → IsMessage m → parse (encode m ++ rest) ≡ some (stamped m)
unfolding parse encode
parse-encode m rest h =
    let attr_buf : List ℕ = encode_attributes m.attributes in
    let header = (stamped m).header in
    let front : length (Header.encode header) ≡ 20 = length-encode_header header h.id_length in
    ground (
      arith,
      front,
      append_assoc (Header.encode header) attr_buf rest,
      length-append (Header.encode header) (attr_buf ++ rest),
      length-append attr_buf rest,
      parse-encode_header header (attr_buf ++ rest)
          (record { fits = omega arith; cookie_set = refl; id_length = h.id_length }),
      scan-encode (Header.encode header) attr_buf rest m.attributes front refl h.sound,
    )

scan-Ends :
    (bytes : List ℕ) (offset end_offset : ℕ) (attributes : List Attribute)
    → end_offset ≤ length bytes
    → Ends attributes
        (end_offset - offset)
        (scan (suc (length bytes)) bytes offset end_offset attributes)
scan-Ends bytes offset end_offset attributes h =
    let rest : List ℕ = slice bytes offset end_offset in
    let loop : Scan = scan_rest (suc (length bytes)) rest attributes in
    let size : length rest ≡ end_offset - offset = length-slice bytes offset end_offset h in
    rw (scan-scan_rest (suc (length bytes)) bytes offset end_offset attributes h) (
      subst (λ n. Ends attributes n loop) size
        (scan_rest-Ends (suc (length bytes)) rest attributes (omega (arith, size))))

-- Whatever bytes come in, the loop over the attributes ends by itself.
pub scan-ne-out_of_fuel :
    (bytes : List ℕ) (offset end_offset : ℕ) (attributes : List Attribute)
    → end_offset ≤ length bytes
    → scan (suc (length bytes)) bytes offset end_offset attributes ≢ out_of_fuel
scan-ne-out_of_fuel bytes offset end_offset attributes h e =
    subst (Ends attributes (end_offset - offset)) e (scan-Ends bytes offset end_offset attributes h)

scanned-Ends :
    (s : Scan) (room : ℕ) (found : List Attribute)
    → Ends [] room s
    → scanned s ≡ some found
    → total_size found ≤ room
scanned-Ends (finished xs) room found h e = ground arith
scanned-Ends refused room found h e = cc
scanned-Ends out_of_fuel room found h e = cc

-- A message that is accepted lies inside the bytes, and its attributes inside its length.
pub parse_fits :
    (bytes : List ℕ) (m : Message)
    → parse bytes ≡ some m
    → (20 + (m.header).message_length ≤ length bytes)
      × (total_size m.attributes ≤ (m.header).message_length)
unfolding parse
parse_fits bytes m e =
    let end_offset : ℕ = 20 + (m.header).message_length in
    let loop : Scan = scan (suc (length bytes)) bytes 20 end_offset [] in
    ground
      (arith, scan-Ends bytes 20 end_offset [], scanned-Ends loop (end_offset - 20) m.attributes)
