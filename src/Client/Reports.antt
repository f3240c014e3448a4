-- ===== src/Client/Reports.antt =====
-- `formatPosePayload` and the text of `sendVideoDecodeAcks` of
-- quest_client/app/src/main/cpp/native_main.cpp, with the struct `HeadPoseSample` of openxr_app.h.
-- What `snprintf` prints for a number is a parameter.
use robo_vr.Base.{◌%◌, ◌^◌, ℕ, Bool, if◌then◌else◌, List, [], ◌∷◌, ◌++◌, take, ℤ}
use robo_vr.Base.Text.{codes}
use robo_vr.Protocol.KeyValue.Format.{Pair, format}
use robo_vr.Video.Decoder.State.{Millis, VideoDecodeAck}

-- `%lld`, `%u` and `%llu`, and `%.6f` and `%.3f` on a float and on a number of milliseconds.
pub record Printers (F : Type 0) (f : Millis) : Type 0 where
  pub signed : ℤ → List ℕ
  pub unsigned : ℕ → List ℕ
  pub fixed6 : F → List ℕ
  pub fixed3 : F → List ℕ
  pub millis3 : f.Value → List ℕ

-- `XrPosef`
pub record Posef (F : Type 0) : Type 0 where
  pub px : F
  pub py : F
  pub pz : F
  pub qx : F
  pub qy : F
  pub qz : F
  pub qw : F

-- `XrFovf`
pub record Fovf (F : Type 0) : Type 0 where
  pub angle_left : F
  pub angle_right : F
  pub angle_up : F
  pub angle_down : F

pub record HeadPoseSample (F : Type 0) : Type 0 where
  pub predicted_display_time_ns : ℤ
  pub pose : Posef F
  pub view_state_flags : ℕ
  pub eye_view_count : ℕ
  pub left_eye_pose : Posef F
  pub right_eye_pose : Posef F
  pub left_eye_fov : Fovf F
  pub right_eye_fov : Fovf F
  pub ipd_m : F
  pub left_grip_pose : Posef F
  pub right_grip_pose : Posef F
  pub left_aim_pose : Posef F
  pub right_aim_pose : Posef F
  pub left_grip_flags : ℕ
  pub right_grip_flags : ℕ
  pub left_aim_flags : ℕ
  pub right_aim_flags : ℕ
  pub left_trigger : F
  pub right_trigger : F
  pub left_squeeze : F
  pub right_squeeze : F
  pub button_a : Bool
  pub button_b : Bool
  pub button_x : Bool
  pub button_y : Bool

-- `%d` on `b ? 1 : 0`
abbrev pub digit : Bool → List ℕ
digit b = if b then b'1' ∷ [] else b'0' ∷ []

module _ {F : Type 0} {f : Millis} (p : Printers F f) where
  -- The seven fields `name_px=%.6f;…;name_qw=%.6f`.
  abbrev pub pose_pairs : List ℕ → Posef F → List Pair
  pose_pairs name x =
      (name ++ codes "_px", p.fixed6 x.px)
      ∷ (name ++ codes "_py", p.fixed6 x.py)
      ∷ (name ++ codes "_pz", p.fixed6 x.pz)
      ∷ (name ++ codes "_qx", p.fixed6 x.qx)
      ∷ (name ++ codes "_qy", p.fixed6 x.qy)
      ∷ (name ++ codes "_qz", p.fixed6 x.qz)
      ∷ (name ++ codes "_qw", p.fixed6 x.qw)
      ∷ []

  abbrev pub fov_pairs : List ℕ → Fovf F → List Pair
  fov_pairs name x =
      (name ++ codes "_left", p.fixed6 x.angle_left)
      ∷ (name ++ codes "_right", p.fixed6 x.angle_right)
      ∷ (name ++ codes "_up", p.fixed6 x.angle_up)
      ∷ (name ++ codes "_down", p.fixed6 x.angle_down)
      ∷ []

  abbrev pub space_pairs : List ℕ → ℕ → Posef F → List Pair
  space_pairs name flags x = (name ++ codes "_flags", p.unsigned flags) ∷ pose_pairs name x

  -- The fields of the format string, in its order.
  unfoldable pub pose_fields : HeadPoseSample F → List Pair
  pose_fields x =
      (codes "predicted_display_time_ns", p.signed x.predicted_display_time_ns)
        ∷ (codes "view_state_flags", p.unsigned (x.view_state_flags % 2 ^ 32))
        ∷ pose_pairs (codes "head") x.pose
      ++ ((codes "eye_view_count", p.unsigned (x.eye_view_count % 2 ^ 32))
          ∷ (codes "ipd_m", p.fixed6 x.ipd_m)
          ∷ pose_pairs (codes "left_eye") x.left_eye_pose)
      ++ pose_pairs (codes "right_eye") x.right_eye_pose
      ++ fov_pairs (codes "left_fov") x.left_eye_fov
      ++ fov_pairs (codes "right_fov") x.right_eye_fov
      ++ space_pairs (codes "left_grip") x.left_grip_flags x.left_grip_pose
      ++ space_pairs (codes "right_grip") x.right_grip_flags x.right_grip_pose
      ++ space_pairs (codes "left_aim") x.left_aim_flags x.left_aim_pose
      ++ space_pairs (codes "right_aim") x.right_aim_flags x.right_aim_pose
      ++ ((codes "left_trigger", p.fixed3 x.left_trigger)
          ∷ (codes "right_trigger", p.fixed3 x.right_trigger)
          ∷ (codes "left_squeeze", p.fixed3 x.left_squeeze)
          ∷ (codes "right_squeeze", p.fixed3 x.right_squeeze)
          ∷ (codes "button_a", digit x.button_a)
          ∷ (codes "button_b", digit x.button_b)
          ∷ (codes "button_x", digit x.button_x)
          ∷ (codes "button_y", digit x.button_y)
          ∷ [])

  -- `snprintf` cuts what the 4096 bytes do not hold, with the zero at the end.
  unfoldable pub format_pose_payload : HeadPoseSample F → List ℕ
  unfolding pose_fields format
  format_pose_payload x = take 4095 (format (pose_fields x))

  unfoldable pub ack_fields : VideoDecodeAck f → List Pair
  ack_fields ack =
      (codes "kind", codes "video_ack")
      ∷ (codes "frame_index", p.unsigned ack.frame_index)
      ∷ (codes "quest_receive_to_publish_ms", p.millis3 ack.quest_receive_to_publish_ms)
      ∷ (codes "surface", digit ack.surface_output)
      ∷ []

  -- A buffer of 256 bytes.
  unfoldable pub format_ack_payload : VideoDecodeAck f → List ℕ
  unfolding ack_fields format
  format_ack_payload ack = take 255 (format (ack_fields ack))
