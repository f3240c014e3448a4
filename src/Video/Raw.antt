-- ===== src/Video/Raw.antt =====
-- `checkedRawRgbaSize` and `RawRgbaDecoder::decode` of
-- quest_client/app/src/main/cpp/video_decoder.cpp. The two payload pointers are the lists of the
-- bytes that they point to.
use robo_vr.Base.{
  ℕ, ◌*◌, ◌%◌, ◌^◌, ◌≤◌, ◌<◌, ◌≡◌, Bool, true, false, ◌||◌, not, ◌↔◌, ◌⊎◌, inl, inr, refl, List,
  ◌==◌, ltb, if◌then◌else◌, take, length, take_all, sym, ap, ◌∙◌, Option, none, some, arith,
}
use robo_vr.Protocol.Types.{VideoFrameHeader}
use robo_vr.Video.Display.{Display, StereoVideoFrame, publish_stereo_video_frame}

-- `width * height * 4` in 64 bits; `none` is false.
unfoldable pub checked_raw_rgba_size : VideoFrameHeader → Option ℕ
checked_raw_rgba_size h =
    let bytes = h.width * h.height * 4 % 2 ^ 64 in
    if h.width == 0 || h.height == 0 || ltb (64 * 1024 * 1024) bytes
    then none
    else if not (h.left_payload_size == bytes) || not (h.right_payload_size == bytes)
    then none
    else some bytes

-- The decoder's own count serves the log only.
unfoldable pub raw_decode :
    {C : Type 0} → VideoFrameHeader → List ℕ → List ℕ → Display C → Display C × Bool
raw_decode h left_payload right_payload d = elim (checked_raw_rgba_size h) [
  | none ↦ (d, false)
  | some eye_bytes ↦ (
    publish_stereo_video_frame
        (record {
          frame_index = h.frame_index % 2 ^ 32;
          width = h.width;
          height = h.height;
          left_rgba = take eye_bytes left_payload;
          right_rgba = take eye_bytes right_payload;
        })
        d,
    true,
  )
]

abbrev pub max_raw_size : ℕ
max_raw_size = 64 * 1024 * 1024

-- For images of fewer than 2 ^ 62 pixels, whose size does not wrap: exactly the nonempty ones of at
-- most 64 MiB an eye are accepted, if both payloads have the image's size.
pub checked_raw_rgba_size_iff :
    (h : VideoFrameHeader) (n : ℕ)
    → h.width * h.height < 2 ^ 62
    → (checked_raw_rgba_size h ≡ some n) ↔ (
        (1 ≤ h.width)
        × (1 ≤ h.height)
        × (n ≡ h.width * h.height * 4)
        × (n ≤ max_raw_size)
        × (h.left_payload_size ≡ n)
        × (h.right_payload_size ≡ n))
unfolding checked_raw_rgba_size
checked_raw_rgba_size_iff h n small = (λ e. ground arith, λ e. ground arith)

-- On any header: an accepted size is that of both payloads, so the copies stay inside them.
pub checked_raw_rgba_size_fits :
    (h : VideoFrameHeader) (n : ℕ)
    → checked_raw_rgba_size h ≡ some n
    → (n ≤ max_raw_size) × (h.left_payload_size ≡ n) × (h.right_payload_size ≡ n)
unfolding checked_raw_rgba_size
checked_raw_rgba_size_fits h n e = ground arith

-- Either a raw payload changes nothing and the result is false, or its size is accepted, the two
-- images of that size are shown with the header's number and dimensions, and the result is true.
pub raw_decode_lem :
    {C : Type 0}
    → (h : VideoFrameHeader) (left_payload right_payload : List ℕ) (d : Display C)
    → (raw_decode h left_payload right_payload d ≡ (d, false))
      ⊎ ((n : ℕ) × (checked_raw_rgba_size h ≡ some n)
          × (raw_decode h left_payload right_payload d ≡ (
            publish_stereo_video_frame
                (record {
                  frame_index = h.frame_index % 2 ^ 32;
                  width = h.width;
                  height = h.height;
                  left_rgba = take n left_payload;
                  right_rgba = take n right_payload;
                })
                d,
            true,
          )))
unfolding raw_decode
raw_decode_lem {C} h l r d = by_size (checked_raw_rgba_size h) refl
  where
    shown : ℕ → Display C × Bool
    shown n = (
      publish_stereo_video_frame
          (record {
            frame_index = h.frame_index % 2 ^ 32;
            width = h.width;
            height = h.height;
            left_rgba = take n l;
            right_rgba = take n r;
          })
          d,
      true,
    )

    by_size :
        (o : Option ℕ)
        → checked_raw_rgba_size h ≡ o
        → let e : Display C × Bool = elim o [ none ↦ (d, false) | some n ↦ shown n ] in
          (e ≡ (d, false)) ⊎ ((n : ℕ) × (checked_raw_rgba_size h ≡ some n) × (e ≡ shown n))
    by_size none e = inl refl
    by_size (some n) e = inr (n, e, refl)

-- If a raw payload of fewer than 2 ^ 62 pixels is accepted, whose images have the sizes that its header
-- states, then the frame on show holds exactly these two images, each of four bytes for every pixel of
-- the dimensions on show.
pub raw_decode_shows :
    {C : Type 0}
    → (h : VideoFrameHeader) (l r : List ℕ) (d : Display C) → length l ≡ h.left_payload_size
    → length r ≡ h.right_payload_size
    → h.width * h.height < 2 ^ 62
    → (raw_decode h l r d).1 ≡ true
    → (frame : StereoVideoFrame) × ((raw_decode h l r d).0.stereo_frame ≡ some frame)
      × (frame.left_rgba ≡ l)
      × (frame.right_rgba ≡ r)
      × (length frame.left_rgba ≡ frame.width * frame.height * 4)
      × (length frame.right_rgba ≡ frame.width * frame.height * 4)
unfolding publish_stereo_video_frame
raw_decode_shows h l r d el er small ok = elim (raw_decode_lem h l r d) [
  | inl e ↦ absurd (let b : true ≡ false = sym ok ∙ ap (λ x. x.1) e in cc)
  | inr (n, c, e) ↦
      let (_, fl, fr) = checked_raw_rgba_size_fits h n c in
      let (_, _, size, _, _, _) = (checked_raw_rgba_size_iff h n small).0 c in
      let wl : take n l ≡ l = take_all n l (omega (arith, el, fl)) in
      let wr : take n r ≡ r = take_all n r (omega (arith, er, fr)) in
      (
        record {
          frame_index = h.frame_index % 2 ^ 32;
          width = h.width;
          height = h.height;
          left_rgba = take n l;
          right_rgba = take n r;
        },
        ap (λ x. x.0.stereo_frame) e,
        wl,
        wr,
        ap length wl ∙ el ∙ fl ∙ size,
        ap length wr ∙ er ∙ fr ∙ size,
      )
]
