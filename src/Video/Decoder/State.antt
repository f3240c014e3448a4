-- ===== src/Video/Decoder/State.antt =====
-- The fields of `H264AnnexBDecoder`, `takeAcks`, `resetStreamState` and `stop`.
use robo_vr.Base.{ℕ, Bool, false, List, [], ◌∷◌, Option, none, some, ◌==◌, if◌then◌else◌, ℤ, pos}
use robo_vr.Video.Display.{Display}

-- What the decoder uses of `double`: milliseconds from nanoseconds, and sums of them.
pub record Millis : Type 1 where
  pub Value : Type 0
  pub zero : Value
  pub of_ns : ℤ → Value
  pub add : Value → Value → Value

pub record VideoDecodeAck (f : Millis) : Type 0 where
  pub frame_index : ℕ
  pub quest_receive_to_publish_ms : f.Value
  pub surface_output : Bool

-- The fields, and the access units queued to the codecs so far, newest first, each with its time.
pub record Decoder (f : Millis) : Type 0 where
  pub left_inputs : List (ℕ × List ℕ)
  pub right_inputs : List (ℕ × List ℕ)
  pub left_codec : Option ℕ
  pub right_codec : Option ℕ
  pub left_window : Option ℕ
  pub right_window : Option ℕ
  pub surface_generation : ℕ
  pub width : ℕ
  pub height : ℕ
  pub surface_output : Bool
  pub output_stride : ℤ
  pub output_slice_height : ℤ
  pub output_color_format : ℤ
  pub decoded_left_by_frame : List (ℕ × List ℕ)
  pub decoded_right_by_frame : List (ℕ × List ℕ)
  pub surface_left_ready : List (ℕ × Bool)
  pub surface_right_ready : List (ℕ × Bool)
  pub receive_time_by_frame : List (ℕ × ℤ)
  pub received_frames : ℕ
  pub queued_frames : ℕ
  pub decoded_frames : ℕ
  pub dropped_input_frames : ℕ
  pub last_published_frame_index : ℕ
  pub last_stats_time_ns : ℤ
  pub latency_sum_ms : f.Value
  pub latest_latency_ms : f.Value
  pub has_published_frame : Bool
  pub pending_acks : List (VideoDecodeAck f)

module _ {f : Millis} where
  unfoldable pub take_acks : Decoder f → List (VideoDecodeAck f) × Decoder f
  take_acks d = (d.pending_acks, record d { pending_acks = [] })

  unfoldable pub reset_stream_state : Decoder f → Decoder f
  reset_stream_state d = record d {
    decoded_left_by_frame = [];
    decoded_right_by_frame = [];
    surface_left_ready = [];
    surface_right_ready = [];
    receive_time_by_frame = [];
    received_frames = 0;
    queued_frames = 0;
    decoded_frames = 0;
    dropped_input_frames = 0;
    last_published_frame_index = 0;
    last_stats_time_ns = pos 0;
    latency_sum_ms = f.zero;
    latest_latency_ms = f.zero;
    has_published_frame = false;
    pending_acks = [];
  }

  -- The fields that `stop` resets, its releases aside.
  unfoldable pub stopped : Decoder f → Decoder f
  unfolding reset_stream_state
  stopped d = reset_stream_state (record d {
    left_codec = none;
    right_codec = none;
    left_window = none;
    right_window = none;
    surface_generation = 0;
    width = 0;
    height = 0;
    surface_output = false;
    output_stride = pos 0;
    output_slice_height = pos 0;
    output_color_format = pos 0;
  })

-- `ANativeWindow_release` on a window that is not null gives one reference back.
unfoldable pub drop_reference : ℕ → List ℕ → List ℕ
drop_reference w [] = []
drop_reference w (v ∷ vs) = if v == w then vs else v ∷ drop_reference w vs

unfoldable pub release_window : {C : Type 0} → Option ℕ → Display C → Display C
unfolding drop_reference
release_window none s = s
release_window (some w) s = record s { acquired = drop_reference w s.acquired }

unfoldable pub stop : {f : Millis} {C : Type 0} → Decoder f → Display C → Decoder f × Display C
unfolding stopped release_window
stop d s = (stopped d, release_window d.right_window (release_window d.left_window s))
