-- ===== src/Video/Router.antt =====
-- `VideoDecoderRouter::handlePayload` and `takeAcks` of
-- quest_client/app/src/main/cpp/video_decoder.cpp.
use robo_vr.Base.{
  ℕ, ◌+◌, ◌==◌, ltb, if◌then◌else◌, Bool, false, ◌||◌, not, List, none, some, take, drop, length,
}
use robo_vr.Protocol.Types.{
  VideoFrameHeader, raw_rgba, h264_annex_b, h265_annex_b, av1_annex_b, video_codec,
  unpack_video_frame_header, video_frame_header_size,
}
use robo_vr.Video.Display.{Display}
use robo_vr.Video.Raw.{raw_decode}
use robo_vr.Video.Decoder.State.{Millis, Decoder}
use robo_vr.Video.Decoder.Decode.{Answers, decode}

module _ {f : Millis} {C : Type 0} where
  -- The `switch` on the codec. A number that names no codec, or one of the two that are only logged,
  -- leaves everything alone.
  unfoldable pub dispatch :
      VideoFrameHeader
      → Answers
      → (left_payload right_payload : List ℕ) → Decoder f
      → Display C
      → Decoder f × Display C × Bool
  unfolding raw_decode decode
  dispatch h a left_payload right_payload d s = elim (video_codec h.codec) [
    | none ↦ (d, s, false)
    | some raw_rgba ↦ let (s₁, ok) = raw_decode h left_payload right_payload s in (d, s₁, ok)
    | some h264_annex_b ↦ decode h left_payload right_payload a d s
    | some h265_annex_b ↦ (d, s, false)
    | some av1_annex_b ↦ (d, s, false)
  ]

  -- Everything behind the header is the two payloads, the left one first. The sizes are 32 bits each
  -- and `std::size_t` has 64, so the sum does not wrap.
  unfoldable pub handle_payload :
      List ℕ → Answers → Decoder f → Display C → Decoder f × Display C × Bool
  unfolding dispatch unpack_video_frame_header
  handle_payload payload a d s =
      if ltb (length payload) video_frame_header_size
      then (d, s, false)
      else let h = unpack_video_frame_header payload in
        let rest = drop video_frame_header_size payload in
        if h.width == 0
          || h.height == 0
          || not (
              length payload
              == video_frame_header_size + h.left_payload_size + h.right_payload_size)
        then (d, s, false)
        else dispatch h a (take h.left_payload_size rest) (drop h.left_payload_size rest) d s
