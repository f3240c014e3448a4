-- ===== src/Tests/Screen.antt =====
-- Decoded buffers, what the renderer draws and publishes, and the transport loop with its mailbox.
use robo_vr.Base.{
  ℕ, ◌+◌, ◌*◌, ◌-◌, ◌≡◌, ◌≢◌, ◌⊎◌, refl, true, false, List, [], ◌∷◌, none, some, ltb, pos, arith,
  replicate, All, leb, ℤ, Bool, to_size, to_int32, ◌&&◌, if◌then◌else◌, ◌==◌,
}
use mathlib.Core.Path.{subst}
use robo_vr.Video.Display.{StereoVideoFrame, Display}
use robo_vr.Video.Decoder.State.{Decoder}
use robo_vr.Video.Decoder.Codec.{OutputFormat}
use robo_vr.Video.Decoder.Output.{
  OutputBuffer, YuvOutput, format_changed, output, Drained, drain_output,
}
use robo_vr.Video.Decoder.OutputDrain.{
  HoldsFrame, ReportsRoom, AreWhole, dequeued, drain_output_lem,
}
use robo_vr.Renderer.View.{
  gl_size, first_eye, image_of, CodecAnswers, video_image, draw_view, no_frame,
}
use robo_vr.Renderer.Shown.{IsShowable, IsCurrent, draw_view_shows}
use robo_vr.Renderer.Frame.{FloatOps, ControllerAnswers, FrameAnswers, View, render_frame}
use robo_vr.Renderer.Ends.{IsBare, IsToRender, IsNotToRender, Rendered, render_frame_lem}
use robo_vr.Renderer.Rate.{
  Rates, IsOrder, RateState, request_display_refresh_rate, IsOne, NoneNearer,
  request_display_refresh_rate_lem,
}
use robo_vr.Renderer.Swapchains.{
  Formats, ViewConfig, Runtime, create_swapchains, destroy_swapchains,
}
use robo_vr.Renderer.Destroyed.{Leaves, create_swapchains_lem}
use robo_vr.Renderer.CodecSurfaces.{JavaAnswers, create_codec_surface_resources}
use robo_vr.Renderer.Withdrawn.{IsWithdrawn, create_codec_surface_resources_lem}
use robo_vr.Client.Run.{Attempt, transport_loop}
use robo_vr.Client.Connections.{IsEnoughAttempt, opened, LeavesSound, transport_loop-LeavesSound}
use robo_vr.Client.Mailbox.{
  Turn, publishes, takes, take_newest, published, Sublist, run_mailbox, run_mailbox_lem,
}
use robo_vr.Client.Loop.{Tick}
use robo_vr.Tests.Pipe.{pipe}
use robo_vr.Tests.Video.{nanos, fresh_decoder, display, fresh-IsValid, fresh-IsOrdered}
use robo_vr.Tests.Bridge.{
  tenths, print_short, print_pose_short, two_rounds-IsEnough, client, a_call, two_rounds, print,
  print_pose,
}

abbrev two_by_two : Decoder nanos
two_by_two = record fresh_decoder { width = 2; height = 2 }

-- Rows of four bytes in the I420 layout.
abbrev new_format : OutputFormat
new_format = record { stride = some (pos 4); slice_height = none; color_format = some (pos 19) }

abbrev a_buffer : OutputBuffer
a_buffer = record {
  index = 3;
  offset = 1;
  size = pos 13;
  presentation_time_us = pos 8;
  bytes = some (replicate 13 100);
}

abbrev yuv_outputs : List YuvOutput
yuv_outputs = format_changed (some new_format) ∷ output a_buffer ∷ []

two_by_two-HoldsFrame : HoldsFrame two_by_two
unfolding to_size to_int32
two_by_two-HoldsFrame = ((omega arith, omega arith), (omega arith, omega arith))

room_reported : ReportsRoom 2 2 yuv_outputs
unfolding to_size to_int32
room_reported = ((omega arith, omega arith), tt, (omega arith, tt))

drain_output_lem_example :
    (r : Drained nanos) × (drain_output (some 1) yuv_outputs two_by_two ≡ some r)
    × AreWhole 2 2 r.frames
    × (r.released ≡ dequeued 4 yuv_outputs)
drain_output_lem_example =
    drain_output_lem 1 yuv_outputs two_by_two (omega arith) (omega arith) two_by_two-HoldsFrame
      room_reported

abbrev shown_frame : StereoVideoFrame
shown_frame = record {
  frame_index = 5;
  width = 1;
  height = 1;
  left_rgba = 1 ∷ 2 ∷ 3 ∷ 255 ∷ [];
  right_rgba = 4 ∷ 5 ∷ 6 ∷ 255 ∷ [];
}

abbrev showing : Display ℕ
showing = record (display 0) { stereo_frame = some shown_frame }

abbrev no_codec : CodecAnswers
no_codec = record { has_program = true; has_texture = false; updated = false }

-- Images of up to 4096 pixels a side.
abbrev up_to_4096 : ℤ × ℤ → Bool
up_to_4096 (pos width, pos height) = leb width 4096 && leb height 4096
up_to_4096 _ = false

only_frame :
    (frame : StereoVideoFrame)
    → some shown_frame ≡ some frame
    → (shown_frame ≡ frame) × (up_to_4096 (gl_size frame) ≡ true)
unfolding to_int32
only_frame frame e =
    let same : shown_frame ≡ frame = cc in
    (same, subst (λ x. up_to_4096 (gl_size x) ≡ true) same refl)

draw_view_shows_example :
    IsCurrent (λ i. shown_frame) 1 (draw_view up_to_4096 1 no_codec showing first_eye).0
    × ((frame : StereoVideoFrame)
        → some shown_frame ≡ some frame
        → IsShowable 1 frame
        → frame.frame_index ≢ no_frame
        → (draw_view up_to_4096 1 no_codec showing first_eye).1
          ≡ video_image (some (image_of 1 frame)))
draw_view_shows_example =
    draw_view_shows up_to_4096 (λ i. shown_frame) 1 no_codec showing first_eye only_frame
      (λ h. absurd (h refl))

abbrev whole_floats : FloatOps ℕ
whole_floats = record {
  nought = 0;
  half = 1;
  add = λ a b. a + b;
  sub = λ a b. a - b;
  mul = λ a b. a * b;
  sqrt = λ a. a;
}

abbrev eye_at : ℕ → View whole_floats
eye_at x = (
  record { px = x; py = 2; pz = 3; qx = 0; qy = 0; qz = 0; qw = 1 },
  record { angle_left = 1; angle_right = 1; angle_up = 1; angle_down = 1 },
)

abbrev still : ControllerAnswers ℕ
still = record {
  trigger = some (true, 4);
  squeeze = none;
  primary = some (true, true);
  secondary = some (false, true);
  grip = none;
  aim = none;
}

abbrev frame_answers : FrameAnswers whole_floats
frame_answers = record {
  waited = true;
  begun = true;
  should_render = true;
  predicted_display_time = pos 90;
  left = still;
  right = still;
  views = some (3, eye_at 1 ∷ eye_at 4 ∷ []);
}

render_frame_lem_example :
    ((render_frame whole_floats frame_answers).ended
      ≡ (render_frame whole_floats frame_answers).begun)
    × ((render_frame whole_floats frame_answers).begun
        ≡ (frame_answers.waited && frame_answers.begun))
    × ((IsToRender whole_floats frame_answers
          × Rendered whole_floats frame_answers (render_frame whole_floats frame_answers))
        ⊎ (IsNotToRender whole_floats frame_answers
            × IsBare whole_floats (render_frame whole_floats frame_answers)))
render_frame_lem_example = render_frame_lem whole_floats frame_answers

abbrev hertz : Rates
hertz = record { Float = ℕ; less = λ a b. ltb a b; distance = λ a b. (a - b) + (b - a) }

hertz-IsOrder : IsOrder hertz
hertz-IsOrder = record {
  irreflexive = λ a. ground arith;
  asymmetric = λ a b e. ground (arith, e);
  transitive = λ a b c e h. ground (arith, e, h);
}

abbrev three_rates : RateState hertz
three_rates = record {
  enabled = true;
  has_request = true;
  requested = false;
  supported = 72 ∷ 80 ∷ 120 ∷ [];
}

request_display_refresh_rate_lem_example :
    ((false ≡ true)
      × ((request_display_refresh_rate hertz true 90 three_rates).1 ≡ none)
      × ((request_display_refresh_rate hertz true 90 three_rates).0 ≡ three_rates))
    ⊎ ((false ≡ false)
        × ((rate : ℕ) × ((request_display_refresh_rate hertz true 90 three_rates).1 ≡ some rate)
            × IsOne hertz rate (72 ∷ 80 ∷ 120 ∷ [])
            × NoneNearer hertz 90 rate (72 ∷ 80 ∷ 120 ∷ []))
        × ((request_display_refresh_rate hertz true 90 three_rates).0.requested ≡ true))
request_display_refresh_rate_lem_example =
    request_display_refresh_rate_lem hertz hertz-IsOrder 90 true three_rates 72 (80 ∷ 120 ∷ []) refl
      refl refl

abbrev a_tick : Tick
a_tick = record {
  rounds = two_rounds;
  acknowledge = a_call;
  now = pos 1_000_000_000;
  beat = a_call;
  report = a_call;
}

-- A connection that is refused, one that is not tried without a socket, and one that stands.
abbrev attempts : List (Attempt pipe)
attempts =
    record {
      connect = record { socket = some 4; is_address = true; connected = false };
      conn = client.conn;
      greet = a_call;
      connected_at = pos 5;
      ticks = [];
    }
    ∷ record {
      connect = record { socket = none; is_address = true; connected = true };
      conn = client.conn;
      greet = a_call;
      connected_at = pos 6;
      ticks = [];
    }
    ∷ record {
      connect = record { socket = some 5; is_address = true; connected = true };
      conn = client.conn;
      greet = a_call;
      connected_at = pos 7;
      ticks = a_tick ∷ [];
    }
    ∷ []

attempts-IsEnough : All (IsEnoughAttempt pipe) attempts
attempts-IsEnough = (
  (omega arith, tt),
  (
    (omega arith, tt),
    ((omega arith, ((two_rounds-IsEnough, omega arith, omega arith, omega arith), tt)), tt),
  ),
)

transport_loop-LeavesSound_example :
    LeavesSound pipe tenths
      (opened pipe attempts [])
      (transport_loop pipe tenths print print_pose attempts client [])
transport_loop-LeavesSound_example =
    transport_loop-LeavesSound pipe tenths print print_pose print_short print_pose_short attempts
      client [] attempts-IsEnough
      (record { valid = fresh-IsValid tenths.initial; ordered = fresh-IsOrdered })

abbrev turns : List (Turn ℕ)
turns = publishes 1 ∷ publishes 2 ∷ takes ∷ takes ∷ publishes 3 ∷ takes ∷ []

run_mailbox_lem_example :
    (run_mailbox pipe tenths turns client ≡ take_newest turns [])
    × Sublist (run_mailbox pipe tenths turns client) (published turns)
run_mailbox_lem_example = run_mailbox_lem pipe tenths turns client [] refl

two_poses_sent : run_mailbox pipe tenths turns client ≡ 2 ∷ 3 ∷ []
unfolding run_mailbox
two_poses_sent = refl

abbrev gl : Formats
gl = record { gl_srgb8_alpha8 = 35907; gl_rgba8 = 32856; gl_rgb10_a2 = 32857 }

abbrev headset_views : List ViewConfig
headset_views = replicate 2 (record {
  recommended_image_rect_width = 1680;
  recommended_image_rect_height = 1760;
  recommended_swapchain_sample_count = 1;
})

-- The images of the second swapchain are refused.
abbrev image_failure : Runtime
image_failure = record {
  view_count = some 2;
  view_configs = some headset_views;
  format_count = some 2;
  formats = some (32857 ∷ 32856 ∷ []);
  swapchain = λ i. record {
    created = some (10 + i);
    image_count = some 3;
    images = if i == 0 then some (7 ∷ 8 ∷ 9 ∷ []) else none;
  };
}

create_swapchains_lem_example :
    Leaves
      (32857 ∷ 32856 ∷ [])
      (some headset_views)
      image_failure.swapchain
      (create_swapchains gl image_failure)
create_swapchains_lem_example = create_swapchains_lem gl image_failure 32857 (32856 ∷ []) refl refl

both_destroyed :
    ((create_swapchains gl image_failure).done ≡ false)
    × ((destroy_swapchains (create_swapchains gl image_failure).swapchains).1 ≡ 10 ∷ 11 ∷ [])
unfolding create_swapchains destroy_swapchains
both_destroyed = (refl, refl)

-- The second window is refused.
abbrev one_window : JavaAnswers
one_window = record {
  bridge_class = some 1;
  has_methods = true;
  left = record { texture = some 2; surface = some 3; window = some 4 };
  right = record { texture = some 5; surface = some 6; window = none };
}

abbrev before_surfaces : Display ℕ
before_surfaces = display 7

create_codec_surface_resources_lem_example :
    IsWithdrawn before_surfaces (create_codec_surface_resources one_window before_surfaces)
create_codec_surface_resources_lem_example =
    create_codec_surface_resources_lem one_window before_surfaces

one_window_released : (create_codec_surface_resources one_window before_surfaces).1 ≡ record {
  classes = 1 ∷ [];
  surface_textures = 2 ∷ 5 ∷ [];
  surfaces = 3 ∷ 6 ∷ [];
  windows = 4 ∷ [];
}
unfolding create_codec_surface_resources
one_window_released = refl
