-- ===== src/Frame/Tests.antt =====
-- Frames at concrete inputs, and the frame theorems applied to them.
use lortnoc_tahc.Base.{◌≡◌, ◌↔◌, refl, none, some, [], ◌∷◌, ◌++◌, length, Bytes, arith}
use lortnoc_tahc.Frame.{crc32, ack, Frame, build_frame, parse_frame}
use lortnoc_tahc.Frame.Laws.{parse_frame_iff}

-- The check value of CRC-32: "123456789".
check_value : crc32 (0x31 ∷ 0x32 ∷ 0x33 ∷ 0x34 ∷ 0x35 ∷ 0x36 ∷ 0x37 ∷ 0x38 ∷ 0x39 ∷ []) ≡ 0xcbf43926
unfolding crc32
check_value = refl

abbrev eight : Bytes
eight = 1 ∷ 2 ∷ 3 ∷ 4 ∷ 5 ∷ 6 ∷ 7 ∷ 8 ∷ []

abbrev key : Bytes
key = eight ++ (eight ++ (eight ++ eight))

abbrev sample : Frame
sample = record { type = ack; pubkey = key }

-- A frame with one byte more is refused, and so is ordinary text.
refused : parse_frame (0x4c ∷ 0x54 ∷ 0x4e ∷ 0x43 ∷ 1 ∷ key) ≡ none
unfolding parse_frame
refused = refl

abbrev frame_bytes : Bytes
frame_bytes = 0x4c ∷ 0x54 ∷ 0x4e ∷ 0x43 ∷ 2 ∷ (key ++ (212 ∷ 92 ∷ 165 ∷ 236 ∷ []))

built : build_frame ack key ≡ frame_bytes
unfolding build_frame crc32
built = refl

parse_frame_iff_example :
    (parse_frame frame_bytes ≡ some sample)
    ↔ ((length sample.pubkey ≡ 32) × (frame_bytes ≡ build_frame ack sample.pubkey))
parse_frame_iff_example = parse_frame_iff frame_bytes sample (omega arith)
