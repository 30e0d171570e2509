-- ===== src/Server/Framing.antt =====
-- src/server.rs: a stream gives the same frames however it is cut, and the frames written.
use miuturn.Common.{
  ℕ, ◌+◌, ◌≤◌, ◌<◌, ◌≡◌, refl, ap, List, ◌++◌, some, length, take, drop, get_or, replicate, arith,
  length-append, take_within, length-drop, take_front, drop_front, length-replicate, ◌^◌,
  drop_within, get_or_within, take-drop,
}
use miuturn.Allocations.Relay.{channel_data}
use miuturn.Server.Frame.{
  first_word, payload_len, padded, frame_len, extract_stream_frame, missing_stream_channel_padding,
  write_stream_frame,
}

-- Later bytes do not change what the first four announce.
frame_len-append :
    (buf more : List ℕ)
    → 4 ≤ length buf
    → (first_word (buf ++ more) ≡ first_word buf) × (frame_len (buf ++ more) ≡ frame_len buf)
frame_len-append buf more h =
    let at : (i : ℕ) → i < 4 → get_or (buf ++ more) i 0 ≡ get_or buf i 0 =
      λ i p. get_or_within i buf more 0 (omega arith) in
    let first : first_word (buf ++ more) ≡ first_word buf =
      omega (arith, at 0 (omega arith), at 1 (omega arith)) in
    let payload : payload_len (buf ++ more) ≡ payload_len buf =
      omega (arith, at 2 (omega arith), at 3 (omega arith)) in
    (first, ground (arith, first, payload))

extract_some :
    (buf rest frame : List ℕ)
    → extract_stream_frame buf ≡ (rest, some frame)
    → (4 ≤ length buf)
      × (frame_len buf ≤ length buf)
      × (frame ≡ take (frame_len buf) buf)
      × (rest ≡ drop (frame_len buf) buf)
unfolding extract_stream_frame
extract_some buf rest frame e = ground arith

extract_whole :
    (buf : List ℕ)
    → 4 ≤ frame_len buf
    → frame_len buf ≤ length buf
    → extract_stream_frame buf ≡ (drop (frame_len buf) buf, some (take (frame_len buf) buf))
unfolding extract_stream_frame
extract_whole buf h k = ground arith

-- If a frame can be split off a buffer, then the same frame is split off when more bytes have
-- arrived, which stay behind what was left.
pub extract_stream_frame-append :
    (buf rest frame more : List ℕ)
    → extract_stream_frame buf ≡ (rest, some frame)
    → (extract_stream_frame (buf ++ more) ≡ (rest ++ more, some frame)) × (frame ++ rest ≡ buf)
extract_stream_frame-append buf rest frame more e =
    let (four, fits, is_frame, is_rest) = extract_some buf rest frame e in
    let n : ℕ = frame_len buf in
    let same : frame_len (buf ++ more) ≡ n = (frame_len-append buf more four).1 in
    let whole =
      extract_whole (buf ++ more) (ground arith)
        (omega (arith, same, fits, length-append buf more)) in
    (
      ground (
        arith,
        whole,
        same,
        is_frame,
        is_rest,
        take_within n buf more fits,
        drop_within n buf more fits,
      ),
      ground (arith, is_frame, is_rest, take-drop n buf),
    )

pub extract_shorter :
    (buf frame : List ℕ)
    → (extract_stream_frame buf).1 ≡ some frame
    → length (extract_stream_frame buf).0 + 4 ≤ length buf
extract_shorter buf frame e =
    let (four, fits, is_frame, is_rest) =
      extract_some buf (extract_stream_frame buf).0 frame
        (ap (λ x. ((extract_stream_frame buf).0, x)) e) in
    ground (arith, is_rest, length-drop (frame_len buf) buf)

-- The padding that is written is at most three zeros, so the slice of the three zeros exists.
pub missing_stream_channel_padding-le : (bytes : List ℕ) → missing_stream_channel_padding bytes ≤ 3
unfolding missing_stream_channel_padding
missing_stream_channel_padding-le bytes = ground arith

module _ (c : ℕ) (payload : List ℕ) (low : 0x4000 ≤ c) (high : c ≤ 0x7FFF)
    (small : length payload < 2 ^ 16) where
  head : List ℕ
  head = channel_data c payload

  announced :
      (length head ≡ 4 + length payload)
      × (first_word head ≡ c)
      × (payload_len head ≡ length payload)
      × (frame_len head ≡ 4 + padded (length payload))
  unfolding head
  announced =
      let first : first_word head ≡ c = omega arith in
      let len : payload_len head ≡ length payload = omega arith in
      (omega arith, first, len, ground (arith, first, len))

  written_length : length (write_stream_frame head) ≡ 4 + padded (length payload)
  unfolding write_stream_frame missing_stream_channel_padding
  written_length = ground (
    arith,
    announced,
    length-append head (replicate (missing_stream_channel_padding head) 0),
    length-replicate {A = ℕ} (missing_stream_channel_padding head) 0,
  )

  whole_frame :
      (rest : List ℕ)
      → frame_len (write_stream_frame head ++ rest) ≡ length (write_stream_frame head)
  unfolding write_stream_frame
  whole_frame rest =
      let zeros : List ℕ = replicate (missing_stream_channel_padding head) 0 in
      let once = (frame_len-append head zeros (omega (arith, announced))).1 in
      let more =
        (frame_len-append (head ++ zeros) rest
          (omega (arith, announced, length-append head zeros))).1 in
      omega (arith, once, more, announced, written_length)

-- A ChannelData message that is written on a stream is split off again, with its padding, whatever
-- follows; for a channel number and a payload that a `u16` counts.
pub extract_stream_frame-write_stream_frame :
    (c : ℕ) (payload rest : List ℕ)
    → 0x4000 ≤ c
    → c ≤ 0x7FFF
    → length payload < 2 ^ 16
    → extract_stream_frame (write_stream_frame (channel_data c payload) ++ rest)
      ≡ (rest, some (write_stream_frame (channel_data c payload)))
unfolding head
extract_stream_frame-write_stream_frame c payload rest low high small =
    let written : List ℕ = write_stream_frame (channel_data c payload) in
    let size = whole_frame c payload low high small rest in
    let long = written_length c payload low high small in
    let whole =
      extract_whole (written ++ rest) (omega (arith, size, long))
        (omega (arith, size, length-append written rest)) in
    ground (
      arith,
      whole,
      size,
      take_front (length written) written rest refl,
      drop_front (length written) written rest refl,
    )
