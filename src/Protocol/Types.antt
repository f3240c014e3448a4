-- ===== src/Protocol/Types.antt =====
-- proto/quest3_teleop_protocol.h: the packet header, the video frame header, and their codes.
use robo_vr.Base.{
  ℕ, ◌%◌, ◌^◌, ◌<◌, Bool, true, false, List, ◌++◌, Option, none, some, ◌==◌, if◌then◌else◌, ℤ,
}
use robo_vr.Base.Text.{codes}
use robo_vr.Protocol.Wire.{le_bytes, field, word64, int64, IsI64}

-- "Q3TP", little-endian.
abbrev pub protocol_magic : ℕ
protocol_magic = 0x50543351

abbrev pub protocol_version : ℕ
protocol_version = 1

abbrev pub packet_header_size : ℕ
packet_header_size = 32

abbrev pub video_frame_header_size : ℕ
video_frame_header_size = 40

pub data PacketType : Type 0 where
  hello config video pose stats heartbeat goodbye error : PacketType

abbrev pub type_code : PacketType → ℕ
type_code hello = 1
type_code config = 2
type_code video = 3
type_code pose = 4
type_code stats = 5
type_code heartbeat = 6
type_code goodbye = 7
type_code error = 8

-- The cast of a `uint16_t` to the enumeration: `none` is a value that no enumerator has.
unfoldable pub packet_type : ℕ → Option PacketType
packet_type n =
    if n == 1
    then some hello
    else if n == 2
    then some config
    else if n == 3
    then some video
    else if n == 4
    then some pose
    else if n == 5
    then some stats
    else if n == 6
    then some heartbeat
    else if n == 7
    then some goodbye
    else if n == 8
    then some error
    else none

unfoldable pub is_known_packet_type : ℕ → Bool
unfolding packet_type
is_known_packet_type n = elim (packet_type n) [ some t ↦ true | none ↦ false ]

unfoldable pub packet_type_name : Option PacketType → List ℕ
packet_type_name (some hello) = codes "HELLO"
packet_type_name (some config) = codes "CONFIG"
packet_type_name (some video) = codes "VIDEO"
packet_type_name (some pose) = codes "POSE"
packet_type_name (some stats) = codes "STATS"
packet_type_name (some heartbeat) = codes "HEARTBEAT"
packet_type_name (some goodbye) = codes "GOODBYE"
packet_type_name (some error) = codes "ERROR"
packet_type_name none = codes "UNKNOWN"

pub record PacketHeader : Type 0 where
  pub magic : ℕ
  pub version : ℕ
  pub type : ℕ
  pub seq : ℕ
  pub timestamp_ns : ℤ
  pub payload_size : ℕ
  pub crc32 : ℕ

-- The ranges of the fields' types.
pub record FitsHeader (h : PacketHeader) : Type 0 where
  pub magic_u32 : h.magic < 2 ^ 32
  pub version_u16 : h.version < 2 ^ 16
  pub type_u16 : h.type < 2 ^ 16
  pub seq_u64 : h.seq < 2 ^ 64
  pub timestamp_i64 : IsI64 h.timestamp_ns
  pub payload_size_u32 : h.payload_size < 2 ^ 32
  pub crc32_u32 : h.crc32 < 2 ^ 32

unfoldable pub pack_header : PacketHeader → List ℕ
unfolding le_bytes word64
pack_header h =
    le_bytes 4 h.magic
    ++ (le_bytes 2 h.version
        ++ (le_bytes 2 h.type
            ++ (le_bytes 8 h.seq
                ++ (le_bytes 8 (word64 h.timestamp_ns)
                    ++ (le_bytes 4 h.payload_size ++ le_bytes 4 h.crc32)))))

unfoldable pub unpack_header : List ℕ → PacketHeader
unfolding field int64
unpack_header bs = record {
  magic = field bs 0 4;
  version = field bs 4 2;
  type = field bs 6 2;
  seq = field bs 8 8;
  timestamp_ns = int64 (field bs 16 8);
  payload_size = field bs 24 4;
  crc32 = field bs 28 4;
}

-- `payload_size` is cut to 32 bits.
unfoldable pub make_packet_header : PacketType → ℕ → ℤ → ℕ → PacketHeader
make_packet_header t seq timestamp_ns payload_size = record {
  magic = protocol_magic;
  version = protocol_version;
  type = type_code t;
  seq = seq;
  timestamp_ns = timestamp_ns;
  payload_size = payload_size % 2 ^ 32;
  crc32 = 0;
}

pub data VideoCodec : Type 0 where
  raw_rgba h264_annex_b h265_annex_b av1_annex_b : VideoCodec

abbrev pub codec_code : VideoCodec → ℕ
codec_code raw_rgba = 1
codec_code h264_annex_b = 2
codec_code h265_annex_b = 3
codec_code av1_annex_b = 4

-- The cast of a `uint16_t` to the enumeration.
unfoldable pub video_codec : ℕ → Option VideoCodec
video_codec n =
    if n == 1
    then some raw_rgba
    else if n == 2
    then some h264_annex_b
    else if n == 3
    then some h265_annex_b
    else if n == 4
    then some av1_annex_b
    else none

abbrev pub video_frame_keyframe : ℕ
video_frame_keyframe = 1

pub record VideoFrameHeader : Type 0 where
  pub codec : ℕ
  pub flags : ℕ
  pub stream_id : ℕ
  pub frame_index : ℕ
  pub capture_time_ns : ℤ
  pub width : ℕ
  pub height : ℕ
  pub left_payload_size : ℕ
  pub right_payload_size : ℕ

pub record FitsVideoHeader (h : VideoFrameHeader) : Type 0 where
  pub codec_u16 : h.codec < 2 ^ 16
  pub flags_u16 : h.flags < 2 ^ 16
  pub stream_id_u32 : h.stream_id < 2 ^ 32
  pub frame_index_u64 : h.frame_index < 2 ^ 64
  pub capture_time_i64 : IsI64 h.capture_time_ns
  pub width_u32 : h.width < 2 ^ 32
  pub height_u32 : h.height < 2 ^ 32
  pub left_payload_size_u32 : h.left_payload_size < 2 ^ 32
  pub right_payload_size_u32 : h.right_payload_size < 2 ^ 32

unfoldable pub pack_video_frame_header : VideoFrameHeader → List ℕ
unfolding le_bytes word64
pack_video_frame_header h =
    le_bytes 2 h.codec
    ++ (le_bytes 2 h.flags
        ++ (le_bytes 4 h.stream_id
            ++ (le_bytes 8 h.frame_index
                ++ (le_bytes 8 (word64 h.capture_time_ns)
                    ++ (le_bytes 4 h.width
                        ++ (le_bytes 4 h.height
                            ++ (le_bytes 4 h.left_payload_size
                                ++ le_bytes 4 h.right_payload_size)))))))

unfoldable pub unpack_video_frame_header : List ℕ → VideoFrameHeader
unfolding field int64
unpack_video_frame_header bs = record {
  codec = field bs 0 2;
  flags = field bs 2 2;
  stream_id = field bs 4 4;
  frame_index = field bs 8 8;
  capture_time_ns = int64 (field bs 16 8);
  width = field bs 24 4;
  height = field bs 28 4;
  left_payload_size = field bs 32 4;
  right_payload_size = field bs 36 4;
}
