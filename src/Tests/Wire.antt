-- ===== src/Tests/Wire.antt =====
-- The protocol at concrete inputs.
use robo_vr.Base.{◌≡◌, refl, [], ◌∷◌, ◌++◌, arith, pos, negsuc}
use robo_vr.Base.Text.{codes}
use robo_vr.Protocol.Types.{
  PacketHeader, FitsHeader, pack_header, unpack_header, VideoFrameHeader, pack_video_frame_header,
  unpack_video_frame_header, packet_type, packet_type_name,
}
use robo_vr.Protocol.RoundTrip.{
  unpack_header-pack_header, unpack_video_frame_header-pack_video_frame_header,
}
use robo_vr.Protocol.KeyValue.Defs.{
  find_key_value, parse_key_value_payload, get_value, before, after, key_value,
}
use robo_vr.Protocol.KeyValue.Agree.{get_value-find_key_value}

abbrev sample_header : PacketHeader
sample_header = record {
  magic = 0x50543351;
  version = 1;
  type = 6;
  seq = 0x1_0000_0002;
  timestamp_ns = negsuc 4;
  payload_size = 13;
  crc32 = 0;
}

packed_sample :
    pack_header sample_header
    ≡ 0x51 ∷ 0x33 ∷ 0x54 ∷ 0x50 ∷ 1 ∷ 0 ∷ 6 ∷ 0 ∷ 2 ∷ 0 ∷ 0 ∷ 0 ∷ 1 ∷ 0 ∷ 0 ∷ 0 ∷ 0xfb ∷ 0xff ∷ 0xff
      ∷ 0xff ∷ 0xff ∷ 0xff ∷ 0xff ∷ 0xff ∷ 13 ∷ 0 ∷ 0 ∷ 0 ∷ 0 ∷ 0 ∷ 0 ∷ 0 ∷ []
unfolding pack_header
packed_sample = refl

sample_header-FitsHeader : FitsHeader sample_header
sample_header-FitsHeader = omega arith

unpack_header-pack_header_example :
    unpack_header (pack_header sample_header ++ (7 ∷ [])) ≡ sample_header
unpack_header-pack_header_example =
    unpack_header-pack_header sample_header (7 ∷ []) sample_header-FitsHeader

abbrev sample_video_header : VideoFrameHeader
sample_video_header = record {
  codec = 1;
  flags = 1;
  stream_id = 0;
  frame_index = 300;
  capture_time_ns = pos 5;
  width = 2;
  height = 1;
  left_payload_size = 8;
  right_payload_size = 8;
}

unpack_video_frame_header_example :
    unpack_video_frame_header (pack_video_frame_header sample_video_header ++ [])
    ≡ sample_video_header
unpack_video_frame_header_example =
    unpack_video_frame_header-pack_video_frame_header sample_video_header [] (omega arith)

name_of_six : packet_type_name (packet_type 6) ≡ codes "HEARTBEAT"
unfolding packet_type_name packet_type
name_of_six = refl

name_of_nine : packet_type_name (packet_type 9) ≡ codes "UNKNOWN"
unfolding packet_type_name packet_type
name_of_nine = refl

-- The second field is behind a newline; the empty text between two separators is a field too.
found_behind_newline : find_key_value (codes "a=1;;b=2\nc=3=4;c=5") (codes "c") ≡ codes "3=4"
unfolding find_key_value key_value before after
found_behind_newline = refl

missing_key : find_key_value (codes "a=1;b") (codes "b") ≡ []
unfolding find_key_value key_value before after
missing_key = refl

get_value-find_key_value_example :
    get_value (parse_key_value_payload (codes "a=1;a=2")) (codes "a") []
    ≡ find_key_value (codes "a=1;a=2") (codes "a")
get_value-find_key_value_example =
    get_value-find_key_value (codes "a=1;a=2") (codes "a") (ground arith)
