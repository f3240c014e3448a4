-- ===== src/Video/Display.antt =====
-- The globals of quest_client/app/src/main/cpp/openxr_app.cpp through which the transport thread
-- hands video to the renderer, and the functions that write them. A window is the number of an
-- `ANativeWindow`; `acquired` lists the windows on which a reference is held, newest first.
use robo_vr.Base.{ℕ, List, ◌∷◌, Option, none, some}

pub record StereoVideoFrame : Type 0 where
  pub frame_index : ℕ
  pub width : ℕ
  pub height : ℕ
  pub left_rgba : List ℕ
  pub right_rgba : List ℕ

pub record StereoCodecSurfaces : Type 0 where
  pub left_window : Option ℕ
  pub right_window : Option ℕ
  pub generation : ℕ

-- `C` is the type of `StereoClearColors`.
pub record Display (C : Type 0) : Type 0 where
  pub stereo_colors : C
  pub stereo_frame : Option StereoVideoFrame
  pub codec_surfaces : StereoCodecSurfaces
  pub codec_surface_generation : ℕ
  pub latest_codec_frame : ℕ
  pub acquired : List ℕ

module _ {C : Type 0} where
  unfoldable pub publish_stereo_clear_colors : C → Display C → Display C
  publish_stereo_clear_colors colors d = record d { stereo_colors = colors }

  unfoldable pub publish_stereo_video_frame : StereoVideoFrame → Display C → Display C
  publish_stereo_video_frame frame d = record d { stereo_frame = some frame }

  unfoldable pub publish_stereo_codec_frame : ℕ → Display C → Display C
  publish_stereo_codec_frame frame_index d = record d {
    latest_codec_frame = frame_index;
    stereo_frame = none;
  }

  -- `none`: false. Both windows gain a reference.
  unfoldable pub acquire_stereo_codec_surfaces :
      Display C → Option (StereoCodecSurfaces × Display C)
  acquire_stereo_codec_surfaces d = elim d.codec_surfaces.left_window [
    | none ↦ none
    | some l ↦ elim d.codec_surfaces.right_window [
      | none ↦ none
      | some r ↦ some (d.codec_surfaces, record d { acquired = r ∷ l ∷ d.acquired })
    ]
  ]
