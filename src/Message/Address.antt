-- ===== src/Message/Address.antt =====
-- src/message.rs: XOR-ed addresses and the fast response to a Binding request.
use miuturn.Common.{ℕ, ◌/◌, ◌%◌, ◌^◌, List, [], ◌∷◌, ◌++◌, Option, none, some, bit_xor}
use miuturn.Common.{ltb, ◌==◌, if◌then◌else◌, length, from_be_u16, be_u16, be_u32}
use miuturn.Net.{SocketAddr, v4, v6}
use miuturn.Message.Header.{byte}

-- The bytes of the cookie, highest first, and its upper half.
abbrev pub cookie_byte : ℕ → ℕ → ℕ
cookie_byte magic_cookie shift = magic_cookie / 2 ^ shift % 256

abbrev pub cookie_port : ℕ → ℕ
cookie_port magic_cookie = magic_cookie / 2 ^ 16 % 2 ^ 16

unfoldable pub encode_xor_address : SocketAddr → ℕ → List ℕ
encode_xor_address (v4 a b c d port) magic_cookie =
    (0 ∷ 0x01 ∷ [])
    ++ (be_u16 (bit_xor port (cookie_port magic_cookie))
        ++ (bit_xor a (cookie_byte magic_cookie 24)
            ∷ bit_xor b (cookie_byte magic_cookie 16)
            ∷ bit_xor c (cookie_byte magic_cookie 8)
            ∷ bit_xor d (magic_cookie % 256)
            ∷ []))
encode_xor_address (v6 octets port flowinfo scope_id) magic_cookie =
    (0 ∷ 0x02 ∷ []) ++ (be_u16 (bit_xor port (cookie_port magic_cookie)) ++ be_u32 0)

unfoldable pub decode_xor_address : List ℕ → ℕ → Option SocketAddr
decode_xor_address bytes magic_cookie =
    if ltb (length bytes) 8
    then none
    else if byte bytes 1 == 0x01
    then some (
        v4 (bit_xor (byte bytes 4) (cookie_byte magic_cookie 24))
          (bit_xor (byte bytes 5) (cookie_byte magic_cookie 16))
          (bit_xor (byte bytes 6) (cookie_byte magic_cookie 8))
          (bit_xor (byte bytes 7) (magic_cookie % 256))
          (bit_xor (from_be_u16 (byte bytes 2) (byte bytes 3)) (cookie_port magic_cookie)))
    else none

-- What follows the header of the fast response, by the family of the client's address.
unfoldable pub fast_address : SocketAddr → List ℕ
fast_address (v4 a b c d port) =
    0
    ∷ 0x01
    ∷ (be_u16 (bit_xor port 0x2112)
        ++ (bit_xor a 0x21 ∷ bit_xor b 0x12 ∷ bit_xor c 0xa4 ∷ bit_xor d 0x42 ∷ []))
fast_address (v6 octets port flowinfo scope_id) = 0 ∷ 0x02 ∷ be_u16 0

unfoldable pub create_binding_response_fast : List ℕ → SocketAddr → List ℕ
unfolding fast_address
create_binding_response_fast transaction_id client_addr =
    be_u16 0x0101
    ++ (be_u16 12
        ++ (be_u32 0x2112_A442
            ++ (transaction_id ++ (be_u16 0x0020 ++ (be_u16 8 ++ fast_address client_addr)))))
