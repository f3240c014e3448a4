-- ===== src/Tests/Host.antt =====
-- The host's stream of access units, its packet callback, and the client's reports.
use robo_vr.Base.{
  ℕ, ◌+◌, ◌-◌, ◌^◌, ◌≤◌, ◌<◌, ◌≡◌, refl, Bool, true, false, List, [], ◌∷◌, ◌++◌, some, length, drop,
  ℤ, pos, arith, zero, suc, ltb, ◌==◌, ◌||◌, ◌&&◌, Bool-cases, inl, inr,
}
use mathlib.Core.Path.{subst}
use robo_vr.Base.Text.{codes}
use robo_vr.Protocol.Types.{
  PacketType, make_packet_header, pack_video_frame_header, pose, heartbeat, hello,
}
use robo_vr.Protocol.KeyValue.Report.{IsNumeral}
use robo_vr.Protocol.KeyValue.Format.{format}
use robo_vr.Video.Decoder.State.{VideoDecodeAck}
use robo_vr.Server.Defs.{Packet}
use robo_vr.Host.Payloads.{H264TestStream, h264_header, make_h264_test_payload}
use robo_vr.Host.AccessUnits.Slice.{
  unescape, bit_at, count_zeros, read_suffix, read_exp_golomb, read_first_mb_in_slice,
}
use robo_vr.Host.AccessUnits.Split.{
  start_code_size, scan, find_start_code, push_current, begin_nal, take_nal, split, units_or_file,
  stream_of, finish, load_h264_test_stream, value_or_zero,
}
use robo_vr.Host.AccessUnits.Codes.{start_code_size-cases}
use robo_vr.Host.AccessUnits.Load.{IsFilled}
use robo_vr.Host.AccessUnits.Whole.{IsSpaced, concat, concat-load_h264_test_stream}
use robo_vr.Host.AccessUnits.Sends.{make_h264_test_payload-load_h264_test_stream}
use robo_vr.Host.AccessUnits.Golomb.{bits, code_word, value, read_first_mb_in_slice-code_word}
use robo_vr.Host.Callback.{Bridge, on_packets, format_pose_summary, render}
use robo_vr.Host.Replies.{Outcome, received_of, on_packets-Outcome}
use robo_vr.Host.Reports.{ArePlain, shown, format_pose_summary-format_pose_payload}
use robo_vr.Client.Reports.{Printers, Posef, Fovf, HeadPoseSample, pose_fields, format_pose_payload}
use robo_vr.Client.Buffer.{AreShort, format_pose_payload-whole}
use robo_vr.Tests.Video.{nanos}
use robo_vr.Tests.Bridge.{two_sent}

-- A sequence parameter set, a keyframe's slice that starts a picture, a delimiter, and another slice.
abbrev file : List ℕ
file =
    0 ∷ 0 ∷ 0 ∷ 1 ∷ 103 ∷ 66 ∷ 0 ∷ 0 ∷ 1 ∷ 101 ∷ 136 ∷ 0 ∷ 0 ∷ 1 ∷ 9 ∷ 16 ∷ 0 ∷ 0 ∷ 1 ∷ 65 ∷ 154
    ∷ []

abbrev loaded : H264TestStream
loaded =
    stream_of
      ((0 ∷ 0 ∷ 0 ∷ 1 ∷ 103 ∷ 66 ∷ 0 ∷ 0 ∷ 1 ∷ 101 ∷ 136 ∷ [])
        ∷ (0 ∷ 0 ∷ 1 ∷ 9 ∷ 16 ∷ 0 ∷ 0 ∷ 1 ∷ 65 ∷ 154 ∷ [])
        ∷ [])
      (true ∷ false ∷ []) 640 480

file_gives_two_units : load_h264_test_stream (some file) 640 480 ≡ some loaded
unfolding load_h264_test_stream split find_start_code scan start_code_size take_nal begin_nal
    push_current finish units_or_file read_first_mb_in_slice read_exp_golomb unescape bit_at
    count_zeros read_suffix
file_gives_two_units = refl

abbrev is_spaced_at : List ℕ → ℕ → Bool
is_spaced_at bytes i =
    let size = start_code_size bytes i in
    ltb size 3 || (ltb (i + size) (length bytes) && start_code_size bytes (i + size) == 0)

abbrev is_spaced_below : ℕ → List ℕ → Bool
is_spaced_below zero bytes = true
is_spaced_below (suc n) bytes = is_spaced_at bytes n && is_spaced_below n bytes

is_spaced_below-at :
    (n : ℕ) (bytes : List ℕ) (i : ℕ)
    → is_spaced_below n bytes ≡ true
    → i < n
    → is_spaced_at bytes i ≡ true
is_spaced_below-at zero bytes i e h = absurd (omega arith)
is_spaced_below-at (suc n) bytes i e h = elim (Bool-cases (i == n)) [
  | inl k ↦
      let same : n ≡ i = ground (arith, k) in
      subst (λ m. is_spaced_at bytes m ≡ true) same (ground (arith, e))
  | inr k ↦
      let below : i < n = ground (arith, k, h) in
      is_spaced_below-at n bytes i (ground (arith, e)) below
]

file_spaced : is_spaced_below 21 file ≡ true
unfolding start_code_size
file_spaced = refl

file-IsSpaced : IsSpaced file
file-IsSpaced i code = elim (start_code_size-cases file i) [
  | inl e ↦ absurd (omega (arith, code, e))
  | inr (_, fits) ↦
      let at_i = is_spaced_below-at 21 file i file_spaced (omega (arith, fits, code)) in
      (ground (arith, at_i, code), ground (arith, at_i, code))
]

make_h264_test_payload-load_h264_test_stream_example :
    (stream : H264TestStream) × (access_unit : List ℕ) × (keyframe : Bool) × (load_h264_test_stream
        (some file)
        640
        480
      ≡ some stream)
    × IsFilled access_unit
    × (make_h264_test_payload stream 7 (pos 5)
        ≡ some (
            pack_video_frame_header (h264_header stream access_unit keyframe 7 (pos 5))
            ++ (access_unit ++ access_unit)))
make_h264_test_payload-load_h264_test_stream_example =
    make_h264_test_payload-load_h264_test_stream 0 (drop 1 file) 640 480 7 (pos 5)

concat-load_h264_test_stream_example :
    concat loaded.access_units ≡ drop (value_or_zero (find_start_code file 0)) file
concat-load_h264_test_stream_example =
    concat-load_h264_test_stream 0 (drop 1 file) 640 480 loaded file-IsSpaced file_gives_two_units

slice_bits :
    bits (unescape 0 (96 ∷ []))
    ≡ code_word (true ∷ []) ++ (false ∷ false ∷ false ∷ false ∷ false ∷ [])
unfolding unescape
slice_bits = refl

read_first_mb_in_slice-code_word_example :
    read_first_mb_in_slice (65 ∷ 96 ∷ []) ≡ some (2 ^ 1 - 1 + value (true ∷ []))
read_first_mb_in_slice-code_word_example =
    read_first_mb_in_slice-code_word 65 (96 ∷ []) (true ∷ [])
      (false ∷ false ∷ false ∷ false ∷ false ∷ []) (omega arith) slice_bits

-- Every number of this printer is a 7.
abbrev sevens : Printers ℕ nanos
sevens = record {
  signed = λ i. codes "7";
  unsigned = λ n. codes "7";
  fixed6 = λ x. codes "7";
  fixed3 = λ x. codes "7";
  millis3 = λ x. codes "7";
}

seven-IsNumeral : IsNumeral (codes "7")
seven-IsNumeral = (omega arith, (refl, tt))

sevens-ArePlain : ArePlain sevens
sevens-ArePlain = record {
  signed_plain = λ i. seven-IsNumeral;
  unsigned_plain = λ n. seven-IsNumeral;
  fixed6_plain = λ x. seven-IsNumeral;
  fixed3_plain = λ x. seven-IsNumeral;
  millis3_plain = λ x. seven-IsNumeral;
}

sevens-AreShort : AreShort sevens
sevens-AreShort = record {
  signed_short = λ i. omega arith;
  unsigned_short = λ n. omega arith;
  fixed6_short = λ x. omega arith;
  fixed3_short = λ x. omega arith;
}

abbrev a_pose : Posef ℕ
a_pose = record { px = 1; py = 2; pz = 3; qx = 0; qy = 0; qz = 0; qw = 1 }

abbrev a_fov : Fovf ℕ
a_fov = record { angle_left = 1; angle_right = 1; angle_up = 1; angle_down = 1 }

abbrev sample : HeadPoseSample ℕ
sample = record {
  predicted_display_time_ns = pos 9;
  pose = a_pose;
  view_state_flags = 3;
  eye_view_count = 2;
  left_eye_pose = a_pose;
  right_eye_pose = a_pose;
  left_eye_fov = a_fov;
  right_eye_fov = a_fov;
  ipd_m = 6;
  left_grip_pose = a_pose;
  right_grip_pose = a_pose;
  left_aim_pose = a_pose;
  right_aim_pose = a_pose;
  left_grip_flags = 0;
  right_grip_flags = 0;
  left_aim_flags = 0;
  right_aim_flags = 0;
  left_trigger = 0;
  right_trigger = 0;
  left_squeeze = 0;
  right_squeeze = 0;
  button_a = true;
  button_b = false;
  button_x = true;
  button_y = false;
}

format_pose_summary-format_pose_payload_example :
    format_pose_summary (format_pose_payload sevens sample) ≡ render (shown sevens sample)
format_pose_summary-format_pose_payload_example =
    format_pose_summary-format_pose_payload sevens sevens-ArePlain sevens-AreShort sample

format_pose_payload-whole_example :
    (length (format_pose_payload sevens sample) ≤ 4046)
    × (format_pose_payload sevens sample ≡ format (pose_fields sevens sample))
format_pose_payload-whole_example = format_pose_payload-whole sevens sevens-AreShort sample

abbrev ack_of_seven : VideoDecodeAck nanos
ack_of_seven = record {
  frame_index = 7;
  quest_receive_to_publish_ms = pos 2;
  surface_output = true;
}

abbrev fresh_bridge : Bridge nanos
fresh_bridge = record { heartbeat_count = 0; pose_count = 0; video_frame = 0; stats = two_sent }

abbrev packet_of : PacketType → Packet
packet_of t = (make_packet_header t 1 (pos 5) 0, [])

abbrev packets : List (ℤ × Packet)
packets =
    (pos 1, packet_of hello)
    ∷ (pos 2, packet_of pose)
    ∷ (pos 3, packet_of heartbeat)
    ∷ (pos 4, packet_of pose)
    ∷ []

packets_few : 0 + received_of pose packets < 2 ^ 64
unfolding make_packet_header
packets_few = omega arith

on_packets-Outcome_example :
    Outcome false fresh_bridge
      (on_packets (λ text. 7) false packets fresh_bridge).0
      (on_packets (λ text. 7) false packets fresh_bridge).1
      (received_of pose packets)
      (received_of heartbeat packets)
      (received_of hello packets)
on_packets-Outcome_example =
    on_packets-Outcome (λ text. 7) false packets fresh_bridge packets_few refl
