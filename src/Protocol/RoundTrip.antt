-- ===== src/Protocol/RoundTrip.antt =====
-- Packing and unpacking of the two headers of proto/quest3_teleop_protocol.h.
use robo_vr.Base.{ℕ, ◌^◌, ◌≤◌, ◌<◌, ◌≡◌, refl, ◌↔◌, true, List, ◌++◌, some, arith, length, ℤ}
use robo_vr.Protocol.Wire.{
  le_bytes, le_value, word64, int64, IsI64, le_value-le_bytes, word64-lt, int64-word64,
}
use robo_vr.Protocol.Types.{
  PacketType, type_code, packet_type, is_known_packet_type, PacketHeader, FitsHeader, pack_header,
  unpack_header, make_packet_header, VideoFrameHeader, FitsVideoHeader, pack_video_frame_header,
  unpack_video_frame_header, packet_header_size, video_frame_header_size,
}

-- The packed header has the size that the receiver reads.
pub length-pack_header : (h : PacketHeader) → length (pack_header h) ≡ packet_header_size
unfolding pack_header
length-pack_header h = refl

pub length-pack_video_frame_header :
    (h : VideoFrameHeader) → length (pack_video_frame_header h) ≡ video_frame_header_size
unfolding pack_video_frame_header
length-pack_video_frame_header h = refl

timestamp : (t : ℤ) → IsI64 t → int64 (le_value (le_bytes 8 (word64 t))) ≡ t
timestamp t h = rw (le_value-le_bytes 8 (word64 t) (word64-lt t)) (int64-word64 t h)

-- `unpackHeader` reads back every header whose fields fit their types, whatever follows it.
pub unpack_header-pack_header :
    (h : PacketHeader) (rest : List ℕ) → FitsHeader h → unpack_header (pack_header h ++ rest) ≡ h
unfolding pack_header unpack_header
unpack_header-pack_header h rest fits = λ i. record {
  magic = le_value-le_bytes 4 h.magic fits.magic_u32 i;
  version = le_value-le_bytes 2 h.version fits.version_u16 i;
  type = le_value-le_bytes 2 h.type fits.type_u16 i;
  seq = le_value-le_bytes 8 h.seq fits.seq_u64 i;
  timestamp_ns = timestamp h.timestamp_ns fits.timestamp_i64 i;
  payload_size = le_value-le_bytes 4 h.payload_size fits.payload_size_u32 i;
  crc32 = le_value-le_bytes 4 h.crc32 fits.crc32_u32 i;
}

-- `unpackVideoFrameHeader` reads back every video header whose fields fit their types, whatever
-- follows it.
pub unpack_video_frame_header-pack_video_frame_header :
    (h : VideoFrameHeader) (rest : List ℕ)
    → FitsVideoHeader h
    → unpack_video_frame_header (pack_video_frame_header h ++ rest) ≡ h
unfolding pack_video_frame_header unpack_video_frame_header
unpack_video_frame_header-pack_video_frame_header h rest fits = λ i. record {
  codec = le_value-le_bytes 2 h.codec fits.codec_u16 i;
  flags = le_value-le_bytes 2 h.flags fits.flags_u16 i;
  stream_id = le_value-le_bytes 4 h.stream_id fits.stream_id_u32 i;
  frame_index = le_value-le_bytes 8 h.frame_index fits.frame_index_u64 i;
  capture_time_ns = timestamp h.capture_time_ns fits.capture_time_i64 i;
  width = le_value-le_bytes 4 h.width fits.width_u32 i;
  height = le_value-le_bytes 4 h.height fits.height_u32 i;
  left_payload_size = le_value-le_bytes 4 h.left_payload_size fits.left_payload_size_u32 i;
  right_payload_size = le_value-le_bytes 4 h.right_payload_size fits.right_payload_size_u32 i;
}

-- Exactly the codes of the eight enumerators are known.
pub packet_type-type_code : (t : PacketType) → packet_type (type_code t) ≡ some t
unfolding packet_type
packet_type-type_code PacketType.hello = refl
packet_type-type_code _ = refl

pub packet_type-eq_some : (n : ℕ) (t : PacketType) → packet_type n ≡ some t → n ≡ type_code t
unfolding packet_type
packet_type-eq_some n PacketType.hello e = ground arith
packet_type-eq_some n _ e = ground arith

pub is_known_packet_type_iff : (n : ℕ) → (is_known_packet_type n ≡ true) ↔ ((1 ≤ n) × (n ≤ 8))
unfolding is_known_packet_type
is_known_packet_type_iff n = (λ e. ground arith, λ e. ground arith)

pub make_packet_header-FitsHeader :
    (t : PacketType) (seq : ℕ) (now : ℤ) (n : ℕ)
    → seq < 2 ^ 64
    → IsI64 now
    → FitsHeader (make_packet_header t seq now n)
unfolding make_packet_header
make_packet_header-FitsHeader PacketType.hello seq now n hs ht = omega arith
make_packet_header-FitsHeader _ seq now n hs ht = omega arith
