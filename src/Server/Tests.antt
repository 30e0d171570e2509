-- ===== src/Server/Tests.antt =====
-- Runs of the framing of src/server.rs, and the theorems applied to them.
use miuturn.Common.{ℕ, ◌≡◌, refl, ap, length, List, [], ◌∷◌, ◌++◌, none, some, arith}
use miuturn.Allocations.Relay.{channel_data}
use miuturn.Server.Frame.{extract_stream_frame, write_stream_frame}
use miuturn.Server.Frame.{frames}
use miuturn.Server.Loop.{frames-append}
use miuturn.Server.Framing.{extract_stream_frame-write_stream_frame}

-- Channel 0x4001 with one byte of payload and its padding, and one byte of what follows.
abbrev stream : List ℕ
stream = 0x40 ∷ 1 ∷ 0 ∷ 1 ∷ 9 ∷ 0 ∷ 0 ∷ 0 ∷ 7 ∷ []

abbrev first_frame : List ℕ
first_frame = 0x40 ∷ 1 ∷ 0 ∷ 1 ∷ 9 ∷ 0 ∷ 0 ∷ 0 ∷ []

first_extracted : extract_stream_frame stream ≡ (7 ∷ [], some first_frame)
unfolding extract_stream_frame
first_extracted = refl

partial_kept : extract_stream_frame (0x40 ∷ 1 ∷ 0 ∷ 1 ∷ 9 ∷ []) ≡ (0x40 ∷ 1 ∷ 0 ∷ 1 ∷ 9 ∷ [], none)
unfolding extract_stream_frame
partial_kept = refl

extract_stream_frame-write_stream_frame_example :
    extract_stream_frame (write_stream_frame (channel_data 0x4001 (9 ∷ [])) ++ (7 ∷ []))
    ≡ (7 ∷ [], some (write_stream_frame (channel_data 0x4001 (9 ∷ []))))
extract_stream_frame-write_stream_frame_example =
    extract_stream_frame-write_stream_frame 0x4001 (9 ∷ []) (7 ∷ []) (omega arith) (omega arith)
      (omega arith)

left_over : (frames 9 stream).1 ≡ 7 ∷ []
unfolding frames extract_stream_frame
left_over = refl

frames-append_example : frames 10 (stream ++ (8 ∷ [])) ≡ (
  (frames 9 stream).0 ++ (frames 2 ((frames 9 stream).1 ++ (8 ∷ []))).0,
  (frames 2 ((frames 9 stream).1 ++ (8 ∷ []))).1,
)
frames-append_example =
    frames-append 10 9 2 stream (8 ∷ []) (omega arith) (omega arith)
      (omega (arith, ap (λ (l : List ℕ). length (l ++ (8 ∷ []))) left_over))
