-- ===== src/Host/Payloads.antt =====
-- `makeVideoTestPatternPayload` and `makeH264TestPayload` of host_bridge/tools/host_bridge_demo.cpp.
use robo_vr.Base.{
  ℕ, zero, suc, ◌+◌, ◌*◌, ◌/◌, ◌%◌, ◌^◌, ◌==◌, ltb, if◌then◌else◌, Bool, ◌&&◌, List, [], ◌∷◌, ◌++◌,
  Option, none, some, get_elem?, length, ℤ,
}
use robo_vr.Protocol.Types.{
  VideoFrameHeader, raw_rgba, h264_annex_b, codec_code, video_frame_keyframe,
  pack_video_frame_header,
}

abbrev pub pattern_side : ℕ
pattern_side = 128

abbrev pub eye_payload_size : ℕ
eye_payload_size = 128 * 128 * 4

-- `abs(x - moving_bar) < 4`
abbrev is_near : ℕ → ℕ → Bool
is_near x bar = ltb x (bar + 4) && ltb bar (x + 4)

-- The pixel at column x and row y of an eye; the sum in `moving_bar` is one of 64 bits.
unfoldable pub pattern_pixel : ℕ → ℕ → ℕ → ℕ → List ℕ
pattern_pixel frame_index eye y x =
    let moving_bar = (frame_index * 5 + eye * 37) % 2 ^ 64 % pattern_side in
    let checker = (x / 16 + y / 16 + eye) % 2 == 0 in
    let bar = is_near x moving_bar in
    if eye == 0
    then (if bar then 255 else if checker then 32 else 16)
      ∷ (if checker then 220 else 72)
      ∷ (if bar then 24 else 245)
      ∷ 255
      ∷ []
    else (if checker then 245 else 96)
      ∷ (if bar then 255 else if checker then 72 else 24)
      ∷ (if checker then 32 else 220)
      ∷ 255
      ∷ []

-- A loop of `count` rounds from `start`, whose rounds write one behind the other.
unfoldable pub written : ℕ → ℕ → (ℕ → List ℕ) → List ℕ
written zero start round = []
written (suc count) start round = round start ++ written count (suc start) round

unfoldable pub fill_eye : ℕ → ℕ → List ℕ
unfolding written pattern_pixel
fill_eye frame_index eye =
    written pattern_side 0 (λ y. written pattern_side 0 (pattern_pixel frame_index eye y))

abbrev pub pattern_header : ℕ → ℤ → VideoFrameHeader
pattern_header frame_index now = record {
  codec = codec_code raw_rgba;
  flags = video_frame_keyframe;
  stream_id = 0;
  frame_index = frame_index;
  capture_time_ns = now;
  width = pattern_side;
  height = pattern_side;
  left_payload_size = eye_payload_size;
  right_payload_size = eye_payload_size;
}

unfoldable pub make_video_test_pattern_payload : ℕ → ℤ → List ℕ
make_video_test_pattern_payload frame_index now =
    pack_video_frame_header (pattern_header frame_index now)
    ++ (fill_eye frame_index 0 ++ fill_eye frame_index 1)

pub record H264TestStream : Type 0 where
  pub access_units : List (List ℕ)
  pub keyframes : List Bool
  pub width : ℕ
  pub height : ℕ
  pub fps : ℕ

abbrev pub h264_header : H264TestStream → List ℕ → Bool → ℕ → ℤ → VideoFrameHeader
h264_header stream access_unit keyframe frame_index now = record {
  codec = codec_code h264_annex_b;
  flags = if keyframe then video_frame_keyframe else 0;
  stream_id = 0;
  frame_index = frame_index;
  capture_time_ns = now;
  width = stream.width;
  height = stream.height;
  left_payload_size = length access_unit % 2 ^ 32;
  right_payload_size = length access_unit % 2 ^ 32;
}

-- `none`: an index past the end of one of the vectors, which the source does not test.
unfoldable pub make_h264_test_payload : H264TestStream → ℕ → ℤ → Option (List ℕ)
make_h264_test_payload stream frame_index now =
    let access_unit_index = frame_index % length stream.access_units in
    elim (get_elem? stream.access_units access_unit_index) [
      | none ↦ none
      | some access_unit ↦ elim (get_elem? stream.keyframes access_unit_index) [
        | none ↦ none
        | some keyframe ↦ some (
            pack_video_frame_header (h264_header stream access_unit keyframe frame_index now)
            ++ (access_unit ++ access_unit))
      ]
    ]
