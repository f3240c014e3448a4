-- ===== src/Renderer/Shown.antt =====
-- What an eye is shown, over any frames published and views rendered.
use robo_vr.Base.{
  ℕ, ◌*◌, ◌%◌, ◌^◌, ◌≤◌, ◌≡◌, ◌≢◌, refl, sym, ap, ◌∙◌, ◌==◌, if◌then◌else◌, Bool, true, false, not,
  ◌||◌, ℤ, Option, none, some, length, arith,
}
use mathlib.Core.Path.{subst}
use robo_vr.Video.Display.{StereoVideoFrame, Display}
use robo_vr.Renderer.View.{
  gl_size, no_frame, Image, Eye, pixels_of, image_of, upload_frame, upload_latest_video_frame,
  CodecAnswers, Drawn, video_image, codec_surface, waiting_overlay, draw_latest_codec_surface_frame,
  draw_view,
}

-- A frame that `uploadLatestVideoFrame` takes for an eye.
abbrev pub IsShowable : ℕ → StereoVideoFrame → Type 0
IsShowable view_index frame =
    (1 ≤ frame.width)
    × (1 ≤ frame.height)
    × (length (pixels_of view_index frame) ≡ frame.width * frame.height * 4 % 2 ^ 64)

-- The eye's texture has the image of the frame whose index is on record, if there is one. `content`
-- gives the frame of each index: no index stands for two frames.
abbrev pub IsCurrent : (ℕ → StereoVideoFrame) → ℕ → Eye → Type 0
IsCurrent content view_index e =
    e.uploaded_video_frame ≢ no_frame
    → e.video_texture ≡ some (image_of view_index (content e.uploaded_video_frame))

-- An upload leaves the eye current, and one that succeeds leaves the frame's image in the texture.
Uploaded : (ℕ → StereoVideoFrame) → ℕ → StereoVideoFrame → Eye × Bool → Type 0
Uploaded content view_index frame (e, done) =
    IsCurrent content view_index e
    × (IsShowable view_index frame
        → frame.frame_index ≢ no_frame
        → (done ≡ true) × (e.video_texture ≡ some (image_of view_index frame)))

upload_frame-Uploaded :
    (takes : ℤ × ℤ → Bool) (content : ℕ → StereoVideoFrame) (view_index : ℕ)
    → (frame : StereoVideoFrame) (e : Eye) → content frame.frame_index ≡ frame
    → takes (gl_size frame) ≡ true
    → IsCurrent content view_index e
    → Uploaded content view_index frame (upload_frame takes view_index frame e)
unfolding upload_frame Uploaded
upload_frame-Uploaded takes content view_index frame e known taken current = by_tests _ refl _ refl
  where
    size : ℕ
    size = frame.width * frame.height * 4 % 2 ^ 64

    by_tests :
        (a : Bool)
        → (e.uploaded_video_frame == frame.frame_index) ≡ a
        → (b : Bool) → not (length (pixels_of view_index frame) == size) ≡ b
        → Uploaded content view_index frame (
            if a then (e, true) else if b then (e, false) else (
              record {
                uploaded_video_frame = frame.frame_index;
                video_texture =
                    if takes (gl_size frame)
                    then some (image_of view_index frame)
                    else e.video_texture;
              },
              true,
            ))
    by_tests true h b k =
        let same : e.uploaded_video_frame ≡ frame.frame_index = ground (arith, h) in
        (
          current,
          λ showable real. (
            refl,
            current (λ none_yet. real (sym same ∙ none_yet))
                ∙ ap (λ i. some (image_of view_index (content i))) same
                ∙ ap (λ x. some (image_of view_index x)) known,
          ),
        )
    by_tests false h true k = (current, λ showable real. absurd (ground (arith, k, showable.2)))
    by_tests false h false k =
        let drawn =
          ap (λ b. if b then some (image_of view_index frame) else e.video_texture) taken in
        (
          λ real. drawn ∙ ap (λ x. some (image_of view_index x)) (sym known),
          λ showable real. (refl, drawn),
        )

upload_latest_video_frame-Uploaded :
    (takes : ℤ × ℤ → Bool) (content : ℕ → StereoVideoFrame) (view_index : ℕ)
    → (frame : StereoVideoFrame) (e : Eye) → content frame.frame_index ≡ frame
    → takes (gl_size frame) ≡ true
    → IsCurrent content view_index e
    → Uploaded content view_index frame (upload_latest_video_frame takes view_index (some frame) e)
unfolding upload_latest_video_frame Uploaded
upload_latest_video_frame-Uploaded takes content view_index frame e known taken current =
    by_size _ refl
  where
    by_size :
        (a : Bool)
        → (frame.width == 0 || frame.height == 0) ≡ a
        → Uploaded content view_index frame
            (if a then (e, false) else upload_frame takes view_index frame e)
    by_size true h = (current, λ showable real. absurd (ground (arith, h, showable.0, showable.1)))
    by_size false h = upload_frame-Uploaded takes content view_index frame e known taken current

-- As long as no two published frames have the same index and `glTexImage2D` takes images of their
-- widths and heights as `GLsizei`: drawing a view leaves the eye's texture
-- the image of the frame on record, and while a frame is published that fills its image, with an
-- index below 2^32 - 1, it is that frame's image for the eye that is drawn.
pub draw_view_shows :
    {C : Type 0}
    → (takes : ℤ × ℤ → Bool) (content : ℕ → StereoVideoFrame) (view_index : ℕ) (a : CodecAnswers)
    → (d : Display C) (e : Eye)
    → ((frame : StereoVideoFrame)
        → d.stereo_frame ≡ some frame
        → (content frame.frame_index ≡ frame) × (takes (gl_size frame) ≡ true))
    → IsCurrent content view_index e
    → let (e', drawn) = draw_view takes view_index a d e in
      IsCurrent content view_index e'
      × ((frame : StereoVideoFrame)
          → d.stereo_frame ≡ some frame
          → IsShowable view_index frame
          → frame.frame_index ≢ no_frame
          → drawn ≡ video_image (some (image_of view_index frame)))
unfolding draw_view Uploaded upload_latest_video_frame
draw_view_shows takes content view_index a d e known current = by_frame d.stereo_frame known
  where
    after : Eye × Bool → Eye × Drawn
    after (e', uploaded) =
        if uploaded
        then (e', video_image e'.video_texture)
        else if draw_latest_codec_surface_frame view_index d.latest_codec_frame a
        then (e', codec_surface)
        else (e', waiting_overlay)

    eye_kept : (x : Eye × Bool) → (after x).0 ≡ x.0
    eye_kept (e', true) = refl
    eye_kept (e', false) =
        by_codec (draw_latest_codec_surface_frame view_index d.latest_codec_frame a)
      where
        by_codec :
            (b : Bool)
            → (if◌then◌else◌ {A = Eye × Drawn} b (e', codec_surface) (e', waiting_overlay)).0 ≡ e'
        by_codec true = refl
        by_codec false = refl

    drawn_image :
        (x : Eye × Bool) (image : Image)
        → x.1 ≡ true
        → x.0.video_texture ≡ some image
        → (after x).1 ≡ video_image (some image)
    drawn_image (e', true) image h k = ap video_image k
    drawn_image (e', false) image h k = cc

    by_frame :
        (o : Option StereoVideoFrame)
        → ((frame : StereoVideoFrame)
            → o ≡ some frame
            → (content frame.frame_index ≡ frame) × (takes (gl_size frame) ≡ true))
        → let x = upload_latest_video_frame takes view_index o e in
          IsCurrent content view_index (after x).0
          × ((frame : StereoVideoFrame)
              → o ≡ some frame
              → IsShowable view_index frame
              → frame.frame_index ≢ no_frame
              → (after x).1 ≡ video_image (some (image_of view_index frame)))
    by_frame none h = (
      subst (IsCurrent content view_index) (sym (eye_kept (e, false))) current,
      λ frame absent. absurd (cc),
    )
    by_frame (some published) h =
        let x = upload_latest_video_frame takes view_index (some published) e in
        let u =
          upload_latest_video_frame-Uploaded takes content view_index published e
            (h published refl).0 (h published refl).1 current in
        (
          subst (IsCurrent content view_index) (sym (eye_kept x)) u.0,
          λ frame is.
              subst
                (λ y.
                  IsShowable view_index y
                  → y.frame_index ≢ no_frame
                  → (after x).1 ≡ video_image (some (image_of view_index y)))
                (cc)
                (λ showable real.
                  let (done, shows) = u.1 showable real in
                  drawn_image x (image_of view_index published) done shows),
        )
