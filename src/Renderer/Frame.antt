-- ===== src/Renderer/Frame.antt =====
-- `renderFrame`, `locateController` and `locateSpace`: the pose that a frame publishes, and the calls
-- between `xrBeginFrame` and `xrEndFrame`. `XrPosef{}` and `XrFovf{}` are all zeros.
use robo_vr.Base.{
  ℕ, zero, suc, if◌then◌else◌, Bool, true, false, not, List, [], ◌∷◌, Option, none, some, length, ℤ,
}
use robo_vr.Client.Reports.{Posef, Fovf, HeadPoseSample}

-- What the code uses of `float`.
pub record FloatOps (F : Type 0) : Type 0 where
  pub nought : F
  pub half : F
  pub add : F → F → F
  pub sub : F → F → F
  pub mul : F → F → F
  pub sqrt : F → F

pub record ControllerState (F : Type 0) : Type 0 where
  pub grip_pose : Posef F
  pub aim_pose : Posef F
  pub grip_flags : ℕ
  pub aim_flags : ℕ
  pub trigger : F
  pub squeeze : F
  pub primary_button : Bool
  pub secondary_button : Bool

-- An action's state: `none` if the call failed, else `isActive` and `currentState`; and a space's
-- location: `none` if the call failed.
pub record ControllerAnswers (F : Type 0) : Type 0 where
  pub trigger : Option (Bool × F)
  pub squeeze : Option (Bool × F)
  pub primary : Option (Bool × Bool)
  pub secondary : Option (Bool × Bool)
  pub grip : Option (Posef F × ℕ)
  pub aim : Option (Posef F × ℕ)

abbrev pub active_or {ℓ} : {A : Type ℓ} → A → Option (Bool × A) → A
active_or initial none = initial
active_or initial (some (is_active, current)) = if is_active then current else initial

-- `locateSpace`
abbrev pub located_or {ℓ} : {A : Type ℓ} → A → Option A → A
located_or initial none = initial
located_or initial (some location) = location

module _ {F : Type 0} (o : FloatOps F) where
  abbrev pub zero_pose : Posef F
  zero_pose = record {
    px = o.nought;
    py = o.nought;
    pz = o.nought;
    qx = o.nought;
    qy = o.nought;
    qz = o.nought;
    qw = o.nought;
  }

  abbrev pub zero_fov : Fovf F
  zero_fov = record {
    angle_left = o.nought;
    angle_right = o.nought;
    angle_up = o.nought;
    angle_down = o.nought;
  }

  unfoldable pub locate_controller : ControllerAnswers F → ControllerState F
  locate_controller a =
      let (grip_pose, grip_flags) = located_or (zero_pose, 0) a.grip in
      let (aim_pose, aim_flags) = located_or (zero_pose, 0) a.aim in
      record {
        grip_pose = grip_pose;
        aim_pose = aim_pose;
        grip_flags = grip_flags;
        aim_flags = aim_flags;
        trigger = active_or o.nought a.trigger;
        squeeze = active_or o.nought a.squeeze;
        primary_button = active_or false a.primary;
        secondary_button = active_or false a.secondary;
      }

  -- `XrView`: its pose and field of view.
  abbrev pub View : Type 0
  View = Posef F × Fovf F

  abbrev pub middle : F → F → F
  middle a b = o.mul o.half (o.add a b)

  -- The length of the line between the eyes.
  abbrev pub eye_distance : Posef F → Posef F → F
  eye_distance a b =
      let dx = o.sub b.px a.px in
      let dy = o.sub b.py a.py in
      let dz = o.sub b.pz a.pz in o.sqrt (o.add (o.add (o.mul dx dx) (o.mul dy dy)) (o.mul dz dz))

  -- The sample before the controllers are filled in, of the first view and the others.
  unfoldable pub head_sample : ℤ → ℕ → View → List View → HeadPoseSample F
  head_sample time flags (left_pose, left_fov) others = record {
    predicted_display_time_ns = time;
    pose = elim others [
      | [] ↦ left_pose
      | right ∷ _ ↦ record left_pose {
        px = middle left_pose.px right.0.px;
        py = middle left_pose.py right.0.py;
        pz = middle left_pose.pz right.0.pz;
      }
    ];
    view_state_flags = flags;
    eye_view_count = suc (length others);
    left_eye_pose = left_pose;
    right_eye_pose = elim others [ [] ↦ zero_pose | right ∷ _ ↦ right.0 ];
    left_eye_fov = left_fov;
    right_eye_fov = elim others [ [] ↦ zero_fov | right ∷ _ ↦ right.1 ];
    ipd_m = elim others [ [] ↦ o.nought | right ∷ _ ↦ eye_distance left_pose right.0 ];
    left_grip_pose = zero_pose;
    right_grip_pose = zero_pose;
    left_aim_pose = zero_pose;
    right_aim_pose = zero_pose;
    left_grip_flags = 0;
    right_grip_flags = 0;
    left_aim_flags = 0;
    right_aim_flags = 0;
    left_trigger = o.nought;
    right_trigger = o.nought;
    left_squeeze = o.nought;
    right_squeeze = o.nought;
    button_a = false;
    button_b = false;
    button_x = false;
    button_y = false;
  }

  unfoldable pub with_controllers :
      ControllerState F → ControllerState F → HeadPoseSample F → HeadPoseSample F
  with_controllers left right sample = record sample {
    left_grip_pose = left.grip_pose;
    right_grip_pose = right.grip_pose;
    left_aim_pose = left.aim_pose;
    right_aim_pose = right.aim_pose;
    left_grip_flags = left.grip_flags;
    right_grip_flags = right.grip_flags;
    left_aim_flags = left.aim_flags;
    right_aim_flags = right.aim_flags;
    left_trigger = left.trigger;
    right_trigger = right.trigger;
    left_squeeze = left.squeeze;
    right_squeeze = right.squeeze;
    button_x = left.primary_button;
    button_y = left.secondary_button;
    button_a = right.primary_button;
    button_b = right.secondary_button;
  }

  -- What the runtime answers in a frame; the views located with their state flags.
  pub record FrameAnswers : Type 0 where
    pub waited : Bool
    pub begun : Bool
    pub should_render : Bool
    pub predicted_display_time : ℤ
    pub left : ControllerAnswers F
    pub right : ControllerAnswers F
    pub views : Option (ℕ × List View)

  -- What a frame has done: whether it was begun and ended, the pose published, the views rendered, in
  -- order, and the layers handed to the runtime.
  pub record Frame : Type 0 where
    pub begun : Bool
    pub ended : Bool
    pub published : Option (HeadPoseSample F)
    pub rendered : List ℕ
    pub layer_count : ℕ

  -- `for (i = start; …)` of `count` rounds.
  abbrev pub indices : ℕ → ℕ → List ℕ
  indices start zero = []
  indices start (suc count) = start ∷ indices (suc start) count

  unfoldable pub sample_of : FrameAnswers → ℕ → List View → Option (HeadPoseSample F)
  unfolding locate_controller head_sample with_controllers
  sample_of a flags [] = none
  sample_of a flags (first ∷ others) = some (
      with_controllers (locate_controller a.left) (locate_controller a.right)
        (head_sample a.predicted_display_time flags first others))

  unfoldable pub render_frame : FrameAnswers → Frame
  unfolding sample_of
  render_frame a =
      let empty : Bool → Frame =
        λ b. record { begun = b; ended = b; published = none; rendered = []; layer_count = 0 } in
      if not a.waited
      then empty false
      else if not a.begun
      then empty false
      else if not a.should_render
      then empty true
      else elim a.views [
        | none ↦ empty true
        | some (flags, views) ↦ record {
          begun = true;
          ended = true;
          published = sample_of a flags views;
          rendered = indices 0 (length views);
          layer_count = 1;
        }
      ]
