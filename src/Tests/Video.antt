-- ===== src/Tests/Video.antt =====
-- The decoder, the router and the renderer's globals, on a stream of two frames.
use robo_vr.Base.{
  map, ℕ, ◌%◌, ◌^◌, ◌≡◌, ◌⊎◌, refl, Bool, true, false, List, [], ◌∷◌, ◌++◌, Option, none, some, ℤ,
  pos, arith,
}
use robo_vr.Base.Map.{insert, lookup}
use robo_vr.Protocol.Types.{VideoFrameHeader, FitsVideoHeader, pack_video_frame_header}
use robo_vr.Video.Display.{
  acquire_stereo_codec_surfaces, Display, publish_stereo_codec_frame, publish_stereo_video_frame,
}
use robo_vr.Video.Raw.{checked_raw_rgba_size, raw_decode}
use robo_vr.Video.Color.{yuv_to_rgb, rgb_reference, yuv_to_rgb-rgb_reference}
use robo_vr.Video.Decoder.State.{Millis, Decoder, stop}
use robo_vr.Video.Decoder.Draining.{
  Flagged, Latest, buffers_given, pending, drain_surface_output_lem,
}
use robo_vr.Video.Decoder.Codec.{
  drain_surface_output, CreateAnswers, InputAnswers, Dequeued, Output, output,
}
use robo_vr.Video.Decoder.Decode.{
  Answers, drained, decode, ensure_started, restart_if_behind, restart, open_codecs, queue_both,
  surface_path,
}
use robo_vr.Video.Decoder.Invariant.{IsValid}
use robo_vr.Video.Decoder.Newest.{Newest, IsCandidate}
use robo_vr.Video.Decoder.Publishing.{Outcome, ack_frames, surface_path_lem}
use robo_vr.Video.Decoder.Kept.{shown}
use robo_vr.Video.Decoder.Stages.{decode-IsValid}
use robo_vr.Video.Decoder.Acks.{IsOrdered, decode-IsOrdered, decode_shows}
use robo_vr.Video.Router.{handle_payload}
use robo_vr.Host.Payloads.{
  H264TestStream, h264_header, make_h264_test_payload, make_video_test_pattern_payload, fill_eye,
  pattern_side,
}
use robo_vr.Host.Delivery.{
  HasGot, handle_payload-make_h264_test_payload, handle_payload-make_video_test_pattern_payload,
}

abbrev pub nanos : Millis
nanos = record { Value = ℤ; zero = pos 0; of_ns = λ t. t; add = λ a b. pos 0 }

abbrev pub created : CreateAnswers
created = record { codec = some 5; format = true; configured = true; started = true }

abbrev pub taken : InputAnswers
taken = record { dequeued = Dequeued.buffer 0; input_size = some 100; queued = true }

-- Each codec gives out frame 7, then frame 8.
abbrev pub two_outputs : List Output
two_outputs = output 0 (pos 7) (pos 1) ∷ output 1 (pos 8) (pos 1) ∷ []

abbrev pub answers : Answers
answers = record {
  receive_time_ns = pos 10;
  left_create = created;
  right_create = created;
  left_input = taken;
  right_input = taken;
  left_outputs = two_outputs;
  right_outputs = two_outputs;
  left_frames = [];
  right_frames = [];
  publish_time_ns = pos 20;
  stats_time_ns = pos 30;
}

abbrev pub fresh_decoder : Decoder nanos
fresh_decoder = record {
  left_inputs = [];
  right_inputs = [];
  left_codec = none;
  right_codec = none;
  left_window = none;
  right_window = none;
  surface_generation = 0;
  width = 0;
  height = 0;
  surface_output = false;
  output_stride = pos 0;
  output_slice_height = pos 0;
  output_color_format = pos 0;
  decoded_left_by_frame = [];
  decoded_right_by_frame = [];
  surface_left_ready = [];
  surface_right_ready = [];
  receive_time_by_frame = [];
  received_frames = 0;
  queued_frames = 0;
  decoded_frames = 0;
  dropped_input_frames = 0;
  last_published_frame_index = 0;
  last_stats_time_ns = pos 0;
  latency_sum_ms = pos 0;
  latest_latency_ms = pos 0;
  has_published_frame = false;
  pending_acks = [];
}

abbrev pub display : {C : Type 0} → C → Display C
display colors = record {
  stereo_colors = colors;
  stereo_frame = none;
  codec_surfaces = record { left_window = some 1; right_window = some 2; generation = 1 };
  codec_surface_generation = 1;
  latest_codec_frame = 0;
  acquired = [];
}

abbrev screen : Display ℕ
screen = display 0

abbrev unit_bytes : List ℕ
unit_bytes = 0 ∷ 0 ∷ 1 ∷ 5 ∷ []

abbrev frame_eight : VideoFrameHeader
frame_eight = record {
  codec = 2;
  flags = 1;
  stream_id = 0;
  frame_index = 8;
  capture_time_ns = pos 1;
  width = 64;
  height = 64;
  left_payload_size = 3;
  right_payload_size = 3;
}

pub fresh-IsValid : {C : Type 0} → (c : C) → IsValid fresh_decoder (display c)
fresh-IsValid c = record {
  both_or_none = refl;
  started_output = refl;
  started_left_window = refl;
  started_right_window = refl;
  held = refl;
}

pub fresh-IsOrdered : IsOrdered fresh_decoder
fresh-IsOrdered = record { none_before = λ h. refl; ascending = tt; published = tt }

-- Frame 8 is shown, and only it is acknowledged.
eight_acknowledged :
    ack_frames (decode frame_eight unit_bytes unit_bytes answers fresh_decoder screen).0 ≡ 8 ∷ []
unfolding decode ensure_started restart_if_behind restart acquire_stereo_codec_surfaces stop
    open_codecs queue_both surface_path insert lookup
eight_acknowledged = refl

surface_path_lem_example :
    (c : Option ℕ) × Newest
      (IsCandidate false 0
        (drained answers fresh_decoder).surface_left_ready
        (drained answers fresh_decoder).surface_right_ready)
      c
    × Outcome c
        (drained answers fresh_decoder)
        (surface_path answers fresh_decoder screen).0
        screen
        (surface_path answers fresh_decoder screen).1
surface_path_lem_example = surface_path_lem answers fresh_decoder screen

drain_surface_output_lem_example :
    (map (λ r. r.0) (drain_surface_output (some 5) two_outputs).0
      ≡ map (λ b. b.0) (buffers_given 32 two_outputs))
    × ((best : Option (ℕ × ℕ)) × Flagged best (drain_surface_output (some 5) two_outputs).0
        × Latest (map pending (buffers_given 32 two_outputs)) best)
drain_surface_output_lem_example = drain_surface_output_lem 5 two_outputs

decode-IsValid_example :
    IsValid
      (decode frame_eight unit_bytes unit_bytes answers fresh_decoder screen).0
      (decode frame_eight unit_bytes unit_bytes answers fresh_decoder screen).1
decode-IsValid_example =
    decode-IsValid frame_eight unit_bytes unit_bytes answers fresh_decoder screen (fresh-IsValid 0)

decode-IsOrdered_example :
    IsOrdered (decode frame_eight unit_bytes unit_bytes answers fresh_decoder screen).0
decode-IsOrdered_example =
    decode-IsOrdered frame_eight unit_bytes unit_bytes answers fresh_decoder screen
      (fresh-IsValid 0) fresh-IsOrdered

abbrev decoded : Decoder nanos × Display ℕ × Bool
decoded = decode frame_eight unit_bytes unit_bytes answers fresh_decoder screen

decode_shows_example :
    (shown decoded.1 ≡ shown screen)
    ⊎ (decoded.0.has_published_frame ≡ true)
      × (shown decoded.1
          ≡ shown
              (publish_stereo_codec_frame (decoded.0.last_published_frame_index % 2 ^ 32) screen))
      × ((earlier : List ℕ) × (ack_frames decoded.0
            ≡ earlier ++ decoded.0.last_published_frame_index ∷ []))
decode_shows_example =
    decode_shows frame_eight unit_bytes unit_bytes answers fresh_decoder screen (fresh-IsValid 0)

abbrev loop : H264TestStream
loop = record {
  access_units = (0 ∷ 0 ∷ 1 ∷ 5 ∷ []) ∷ (0 ∷ 0 ∷ 1 ∷ 1 ∷ []) ∷ [];
  keyframes = true ∷ false ∷ [];
  width = 64;
  height = 32;
  fps = 30;
}

abbrev second_header : VideoFrameHeader
second_header = h264_header loop (0 ∷ 0 ∷ 1 ∷ 1 ∷ []) false 5 (pos 9)

second_header-Fits : FitsVideoHeader second_header
second_header-Fits = ground arith

abbrev second_payload : List ℕ
second_payload = pack_video_frame_header second_header ++ (0 ∷ 0 ∷ 1 ∷ 1 ∷ 0 ∷ 0 ∷ 1 ∷ 1 ∷ [])

handle_payload-make_h264_test_payload_example :
    (handle_payload second_payload answers fresh_decoder screen
      ≡ decode second_header (0 ∷ 0 ∷ 1 ∷ 1 ∷ []) (0 ∷ 0 ∷ 1 ∷ 1 ∷ []) answers fresh_decoder screen)
    × (((handle_payload second_payload answers fresh_decoder screen).2 ≡ false)
        ⊎ HasGot second_header.frame_index
            (0 ∷ 0 ∷ 1 ∷ 1 ∷ [])
            (handle_payload second_payload answers fresh_decoder screen).0)
handle_payload-make_h264_test_payload_example =
    handle_payload-make_h264_test_payload loop 5 (pos 9) (0 ∷ 0 ∷ 1 ∷ 1 ∷ [])
      (pack_video_frame_header second_header ++ (0 ∷ 0 ∷ 1 ∷ 1 ∷ 0 ∷ 0 ∷ 1 ∷ 1 ∷ [])) false answers
      fresh_decoder screen refl refl (unfold make_h264_test_payload in refl) second_header-Fits
      (omega arith) (omega arith) (omega arith)

handle_payload-make_video_test_pattern_payload_example :
    handle_payload (make_video_test_pattern_payload 3 (pos 9)) answers fresh_decoder screen ≡ (
      fresh_decoder,
      publish_stereo_video_frame
          (record {
            frame_index = 3;
            width = pattern_side;
            height = pattern_side;
            left_rgba = fill_eye 3 0;
            right_rgba = fill_eye 3 1;
          })
          screen,
      true,
    )
handle_payload-make_video_test_pattern_payload_example =
    handle_payload-make_video_test_pattern_payload 3 (pos 9) answers fresh_decoder screen
      (omega arith) (ground arith)

abbrev one_pixel : VideoFrameHeader
one_pixel = record frame_eight {
  codec = 1;
  width = 1;
  height = 1;
  left_payload_size = 4;
  right_payload_size = 4;
}

abbrev left_pixel : List ℕ
left_pixel = 1 ∷ 2 ∷ 3 ∷ 4 ∷ []

abbrev right_pixel : List ℕ
right_pixel = 5 ∷ 6 ∷ 7 ∷ 8 ∷ []

one_pixel_taken : (raw_decode one_pixel left_pixel right_pixel screen).1 ≡ true
unfolding raw_decode checked_raw_rgba_size
one_pixel_taken = refl

yuv_to_rgb-rgb_reference_example : yuv_to_rgb 81 90 240 ≡ rgb_reference 81 90 240
yuv_to_rgb-rgb_reference_example = yuv_to_rgb-rgb_reference 81 90 240
