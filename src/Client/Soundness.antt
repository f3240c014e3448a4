-- ===== src/Client/Soundness.antt =====
-- What the handling of a video payload keeps of the decoder.
use robo_vr.Base.{
  inl, inr, ℕ, ◌≡◌, refl, ap, if◌then◌else◌, Bool, true, false, List, Option, none, some,
}
use robo_vr.Protocol.Types.{
  VideoFrameHeader, VideoCodec, video_codec, raw_rgba, h264_annex_b, h265_annex_b, av1_annex_b,
}
use robo_vr.Video.Display.{Display, publish_stereo_video_frame}
use robo_vr.Video.Raw.{raw_decode, raw_decode_lem}
use robo_vr.Video.Decoder.State.{Millis, Decoder}
use robo_vr.Video.Decoder.Decode.{Answers, decode}
use robo_vr.Video.Decoder.Invariant.{IsValid, IsValid-unmoved}
use robo_vr.Video.Decoder.Stages.{decode-IsValid}
use robo_vr.Video.Decoder.Acks.{IsOrdered, decode-IsOrdered}
use robo_vr.Video.Router.{dispatch, handle_payload}

raw_decode-acquired :
    {C : Type 0}
    → (h : VideoFrameHeader) (l r : List ℕ) (s : Display C)
    → (raw_decode h l r s).0.acquired ≡ s.acquired
unfolding publish_stereo_video_frame
raw_decode-acquired h l r s = elim (raw_decode_lem h l r s) [
  | inl e ↦ ap (λ x. x.0.acquired) e
  | inr (n, _, e) ↦ ap (λ x. x.0.acquired) e
]

module _ {f : Millis} {C : Type 0} where
  -- The decoder is whole and its acknowledgements are in order.
  pub record IsSound (d : Decoder f) (s : Display C) : Type 0 where
    pub valid : IsValid d s
    pub ordered : IsOrdered d

  abbrev Kept : Decoder f × Display C × Bool → Type 0
  Kept x = IsSound x.0 x.1

  if-IsSound :
      (b : Bool) (x y : Decoder f × Display C × Bool) → Kept x → Kept y → Kept (if b then x else y)
  if-IsSound true x y v w = v
  if-IsSound false x y v w = w

  decode-IsSound :
      (h : VideoFrameHeader) (left right : List ℕ) (a : Answers) (d : Decoder f) (s : Display C)
      → IsSound d s
      → IsSound (decode h left right a d s).0 (decode h left right a d s).1
  decode-IsSound h left right a d s v = record {
    valid = decode-IsValid h left right a d s v.valid;
    ordered = decode-IsOrdered h left right a d s v.valid v.ordered;
  }

  dispatch-IsSound :
      (h : VideoFrameHeader) (a : Answers) (l r : List ℕ) (d : Decoder f) (s : Display C)
      → IsSound d s
      → IsSound (dispatch h a l r d s).0 (dispatch h a l r d s).1
  unfolding dispatch
  dispatch-IsSound h a l r d s v = by_codec (video_codec h.codec)
    where
      shown : Decoder f × Display C × Bool
      shown = (d, (raw_decode h l r s).0, (raw_decode h l r s).1)

      by_codec :
          (o : Option VideoCodec)
          → Kept (elim o [
            | none ↦ (d, s, false)
            | some raw_rgba ↦ shown
            | some h264_annex_b ↦ decode h l r a d s
            | some h265_annex_b ↦ (d, s, false)
            | some av1_annex_b ↦ (d, s, false)
          ])
      by_codec none = v
      by_codec (some raw_rgba) = record {
        valid =
            IsValid-unmoved d d s (raw_decode h l r s).0 refl (raw_decode-acquired h l r s) v.valid;
        ordered = v.ordered;
      }
      by_codec (some h264_annex_b) = decode-IsSound h l r a d s v
      by_codec (some h265_annex_b) = v
      by_codec (some av1_annex_b) = v

  -- Whatever bytes a video packet holds, handling it keeps the decoder sound.
  pub handle_payload-IsSound :
      (payload : List ℕ) (a : Answers) (d : Decoder f) (s : Display C)
      → IsSound d s
      → IsSound (handle_payload payload a d s).0 (handle_payload payload a d s).1
  unfolding handle_payload
  handle_payload-IsSound payload a d s v =
      if-IsSound _ (d, s, false) _ v
        (if-IsSound _ (d, s, false) _ v (dispatch-IsSound _ a _ _ d s v))
