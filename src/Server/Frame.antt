-- ===== src/Server/Frame.antt =====
-- src/server.rs, `extract_stream_frame`, `missing_stream_channel_padding` and `write_stream_frame`.
use miuturn.Common.{
  ℕ, zero, suc, ◌+◌, ◌-◌, ◌*◌, ◌/◌, List, [], ◌∷◌, ◌++◌, Option, none, some, Bool, ◌&&◌, not, ltb,
  leb, if◌then◌else◌, length, take, drop, get_or, replicate, from_be_u16,
}

abbrev pub first_word : List ℕ → ℕ
first_word bytes = from_be_u16 (get_or bytes 0 0) (get_or bytes 1 0)

abbrev pub payload_len : List ℕ → ℕ
payload_len bytes = from_be_u16 (get_or bytes 2 0) (get_or bytes 3 0)

-- `(0x4000..=0x7FFF).contains(..)`
abbrev pub is_channel_number : ℕ → Bool
is_channel_number n = leb 0x4000 n && leb n 0x7FFF

-- `(n + 3) & !3`: the two low bits are cleared.
abbrev pub padded : ℕ → ℕ
padded n = (n + 3) / 4 * 4

abbrev pub frame_len : List ℕ → ℕ
frame_len buf =
    if is_channel_number (first_word buf)
    then 4 + padded (payload_len buf)
    else 20 + payload_len buf

-- The buffer that is left, and the frame that was split off.
unfoldable pub extract_stream_frame : List ℕ → List ℕ × Option (List ℕ)
extract_stream_frame buf =
    if ltb (length buf) 4
    then (buf, none)
    else if not (is_channel_number (first_word buf)) && ltb (length buf) 20
    then (buf, none)
    else if ltb (length buf) (frame_len buf)
    then (buf, none)
    else (drop (frame_len buf) buf, some (take (frame_len buf) buf))

unfoldable pub missing_stream_channel_padding : List ℕ → ℕ
missing_stream_channel_padding bytes =
    if ltb (length bytes) 4
    then 0
    else if not (is_channel_number (first_word bytes))
    then 0
    else if ltb (length bytes) (4 + payload_len bytes)
    then 0
    else 4 + padded (payload_len bytes) - length bytes

-- The bytes that the writer gets.
unfoldable pub write_stream_frame : List ℕ → List ℕ
unfolding missing_stream_channel_padding
write_stream_frame bytes = bytes ++ replicate (missing_stream_channel_padding bytes) 0

-- The loop over the frames of a buffer: the frames, in order, and what is left.
unfoldable pub frames : ℕ → List ℕ → List (List ℕ) × List ℕ
unfolding extract_stream_frame
frames zero buf = ([], buf)
frames (suc fuel) buf =
    let (rest, frame) = extract_stream_frame buf in
    let (later, left) = frames fuel rest in
    elim frame [ none ↦ ([], buf) | some f ↦ (f ∷ later, left) ]
