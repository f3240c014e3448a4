-- ===== src/Video/Decoder.antt =====
-- `H264AnnexBDecoder` of quest_client/app/src/main/cpp/video_decoder.{h,cpp}. MediaCodec is not part
-- of the program: what its calls answer is an argument of each operation.
pub mod State
pub mod Codec
pub mod Decode
pub mod Select
pub mod Publish
pub mod Handles
pub mod Inputs
pub mod Invariant
pub mod Newest
pub mod Publishing
pub mod Kept
pub mod Stages
pub mod Acks
pub mod Draining
pub mod Output
pub mod OutputReads
pub mod OutputDrain
