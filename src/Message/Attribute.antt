-- ===== src/Message/Attribute.antt =====
-- src/message.rs, `Attribute`: one attribute on the wire.
use miuturn.Common.{ℕ, ◌-◌, ◌%◌, ◌^◌, List, ◌++◌, Option, none, some}
use miuturn.Common.{ltb, if◌then◌else◌, length, take, drop, replicate, from_be_u16, be_u16}
use miuturn.Message.Types.{Attribute}
use miuturn.Message.Header.{byte}

unfoldable pub decode : List ℕ → Option Attribute
decode bytes =
    if ltb (length bytes) 4
    then none
    else let size = from_be_u16 (byte bytes 2) (byte bytes 3) in
      if ltb (length bytes - 4) size
      then none
      else if ltb 65535 size
      then none
      else some (record {
        attr_type = from_be_u16 (byte bytes 0) (byte bytes 1);
        value = take size (drop 4 bytes);
      })

-- The zeros that fill `size` up to a multiple of four.
abbrev pub padding : ℕ → ℕ
padding size = (4 - size % 4) % 4

-- `len` is a `u16`, so the length of a longer value wraps.
unfoldable pub encode : Attribute → List ℕ
encode a =
    let size = length a.value % 2 ^ 16 in
    be_u16 a.attr_type ++ (be_u16 size ++ (a.value ++ replicate (padding size) 0))
