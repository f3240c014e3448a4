-- ===== src/Renderer/View.antt =====
-- `uploadLatestVideoFrame`, `drawLatestCodecSurfaceFrame` and `renderView`: what is drawn for an eye.
use robo_vr.Base.{
  ℕ, ◌+◌, ◌*◌, ◌-◌, ◌%◌, ◌^◌, ◌==◌, leb, if◌then◌else◌, Bool, true, false, not, ◌||◌, List, Option,
  none, some, length, ℤ, to_int32,
}
use robo_vr.Video.Display.{StereoVideoFrame, Display}

-- `UINT32_MAX`
abbrev pub no_frame : ℕ
no_frame = 2 ^ 32 - 1

-- What `glTexImage2D` has put into a texture.
pub record Image : Type 0 where
  pub width : ℕ
  pub height : ℕ
  pub pixels : List ℕ

-- One eye of `uploaded_video_frame_` and `video_textures_`. A texture without an image is `none`.
pub record Eye : Type 0 where
  pub uploaded_video_frame : ℕ
  pub video_texture : Option Image

abbrev pub first_eye : Eye
first_eye = record { uploaded_video_frame = no_frame; video_texture = none }

abbrev pub pixels_of : ℕ → StereoVideoFrame → List ℕ
pixels_of view_index frame = if view_index == 0 then frame.left_rgba else frame.right_rgba

abbrev pub image_of : ℕ → StereoVideoFrame → Image
image_of view_index frame = record {
  width = frame.width;
  height = frame.height;
  pixels = pixels_of view_index frame;
}

-- What `glTexImage2D` is handed: the width and height as `GLsizei`, which has 32 bits.
abbrev pub gl_size : StereoVideoFrame → ℤ × ℤ
gl_size frame = (to_int32 frame.width, to_int32 frame.height)

-- The part of `uploadLatestVideoFrame` behind the test that there is a frame with a size. `takes` is
-- whether `glTexImage2D` takes an image of this width and height; if not, the texture stays as it is.
unfoldable pub upload_frame : (ℤ × ℤ → Bool) → ℕ → StereoVideoFrame → Eye → Eye × Bool
unfolding to_int32
upload_frame takes view_index frame e =
    if e.uploaded_video_frame == frame.frame_index
    then (e, true)
    else if not (length (pixels_of view_index frame) == frame.width * frame.height * 4 % 2 ^ 64)
    then (e, false)
    else (
      record {
        uploaded_video_frame = frame.frame_index;
        video_texture =
            if takes (gl_size frame) then some (image_of view_index frame) else e.video_texture;
      },
      true,
    )

-- The eye, and the result.
unfoldable pub upload_latest_video_frame :
    (ℤ × ℤ → Bool) → ℕ → Option StereoVideoFrame → Eye → Eye × Bool
unfolding upload_frame
upload_latest_video_frame takes view_index none e = (e, false)
upload_latest_video_frame takes view_index (some frame) e =
    if frame.width == 0 || frame.height == 0
    then (e, false)
    else upload_frame takes view_index frame e

-- What the calls of `drawLatestCodecSurfaceFrame` meet: a program that was linked, a Java environment
-- with the eye's surface texture, and an `updateTexImage` that did not throw.
pub record CodecAnswers : Type 0 where
  pub has_program : Bool
  pub has_texture : Bool
  pub updated : Bool

unfoldable pub draw_latest_codec_surface_frame : ℕ → ℕ → CodecAnswers → Bool
draw_latest_codec_surface_frame view_index latest_codec_frame a =
    if latest_codec_frame == no_frame || not a.has_program || leb 2 view_index
    then false
    else if not a.has_texture
    then false
    else a.updated

pub data Drawn : Type 0 where
  nothing : Drawn
  video_image : Option Image → Drawn
  codec_surface : Drawn
  waiting_overlay : Drawn

-- What the runtime answers, and the calls that it was given for the eye's swapchain.
pub record ViewAnswers : Type 0 where
  pub acquired : Bool
  pub waited : Bool
  pub codec : CodecAnswers

pub record ImageCalls : Type 0 where
  pub acquires : ℕ
  pub releases : ℕ

-- The three ways to fill the image, in their order.
unfoldable pub draw_view :
    {C : Type 0} → (ℤ × ℤ → Bool) → ℕ → CodecAnswers → Display C → Eye → Eye × Drawn
unfolding upload_latest_video_frame draw_latest_codec_surface_frame
draw_view takes view_index a d e =
    let (e', uploaded) = upload_latest_video_frame takes view_index d.stereo_frame e in
    if uploaded
    then (e', video_image e'.video_texture)
    else if draw_latest_codec_surface_frame view_index d.latest_codec_frame a
    then (e', codec_surface)
    else (e', waiting_overlay)

unfoldable pub render_view :
    {C : Type 0}
    → (ℤ × ℤ → Bool)
    → ℕ
    → ViewAnswers
    → Display C
    → ImageCalls
    → Eye
    → ImageCalls × Eye × Drawn
unfolding draw_view
render_view takes view_index a d w e =
    if not a.acquired
    then (w, e, nothing)
    else if not a.waited
    then (record w { acquires = w.acquires + 1 }, e, nothing)
    else (let (e', drawn) = draw_view takes view_index a.codec d e in
        (record w { acquires = w.acquires + 1; releases = w.releases + 1 }, e', drawn))
