-- ===== src/Video/Decoder/Decode.antt =====
-- `ensureStarted` and `H264AnnexBDecoder::decode`. The counters are `std::uint64_t`. The receive and
-- publish times and the time of the statistics are three successive readings of `nowNs`.
use robo_vr.Base.{
  ◌+◌, ◌*◌, ◌%◌, ◌^◌, ◌==◌, ltb, if◌then◌else◌, Bool, true, false, ◌||◌, ◌&&◌, not, List, Option,
  none, some, ℤ, ℕ, ◌∷◌,
}
use robo_vr.Base.Map.{insert}
use robo_vr.Protocol.Types.{VideoFrameHeader}
use robo_vr.Video.Display.{Display, StereoCodecSurfaces, acquire_stereo_codec_surfaces}
use robo_vr.Video.Decoder.State.{Millis, Decoder, stop}
use robo_vr.Video.Decoder.Select.{
  DecodedEyeFrame, mark_ready, select_surface, select_cpu, store_frames,
}
use robo_vr.Video.Decoder.Output.{layout_of}
use robo_vr.Video.Decoder.Publish.{inc, publish_surface, publish_cpu, log_stats}
use robo_vr.Video.Decoder.Codec.{
  CreateAnswers, create_h264_decoder, InputAnswers, queue_access_unit, Output, drain_surface_output,
  drain_surface_layout,
}

-- What the calls of one `decode` answer. The frames that `drainOutput` yields on the path without
-- surfaces are an answer as well.
pub record Answers : Type 0 where
  pub receive_time_ns : ℤ
  pub left_create : CreateAnswers
  pub right_create : CreateAnswers
  pub left_input : InputAnswers
  pub right_input : InputAnswers
  pub left_outputs : List Output
  pub right_outputs : List Output
  pub left_frames : List DecodedEyeFrame
  pub right_frames : List DecodedEyeFrame
  pub publish_time_ns : ℤ
  pub stats_time_ns : ℤ

abbrev pub is_some : {A : Type 0} → Option A → Bool
is_some none = false
is_some (some x) = true

-- `left_codec_ != nullptr && right_codec_ != nullptr`
abbrev pub is_started : {f : Millis} → Decoder f → Bool
is_started d = is_some d.left_codec && is_some d.right_codec

-- The access units queued, with one more if the codec got it.
abbrev pub with_input : ℕ → Option (List ℕ) → List (ℕ × List ℕ) → List (ℕ × List ℕ)
with_input frame_index none inputs = inputs
with_input frame_index (some bytes) inputs = (frame_index, bytes) ∷ inputs

module _ {f : Millis} where
  -- Both access units are offered to their codecs, whether or not the first is taken.
  unfoldable pub queue_both :
      VideoFrameHeader
      → (left_payload right_payload : List ℕ) → Answers
      → Decoder f
      → Decoder f × Bool
  unfolding queue_access_unit
  queue_both h left_payload right_payload a d₀ =
      let left = queue_access_unit d₀.left_codec left_payload h.left_payload_size a.left_input in
      let right =
        queue_access_unit d₀.right_codec right_payload h.right_payload_size a.right_input in
      let d : Decoder f = record d₀ {
        left_inputs = with_input h.frame_index left.input d₀.left_inputs;
        right_inputs = with_input h.frame_index right.input d₀.right_inputs;
      } in
      if left.result && right.result
      then (
        record d {
          queued_frames = inc d.queued_frames;
          receive_time_by_frame = insert h.frame_index a.receive_time_ns d.receive_time_by_frame;
        },
        true,
      )
      else (record d { dropped_input_frames = inc d.dropped_input_frames }, false)

  -- The decoder once both codecs have been drained.
  unfoldable pub drained : Answers → Decoder f → Decoder f
  unfolding drain_surface_output drain_surface_layout mark_ready
  drained a d =
      let l =
        drain_surface_layout d.right_codec a.right_outputs
          (drain_surface_layout d.left_codec a.left_outputs (layout_of d)) in
      record d {
        output_stride = l.stride;
        output_slice_height = l.slice_height;
        output_color_format = l.color_format;
        surface_left_ready =
            mark_ready (drain_surface_output d.left_codec a.left_outputs).1 d.surface_left_ready;
        surface_right_ready =
            mark_ready (drain_surface_output d.right_codec a.right_outputs).1 d.surface_right_ready;
      }

module _ {f : Millis} {C : Type 0} where
  -- The end of `ensureStarted`, on the surfaces that were acquired.
  unfoldable pub open_codecs :
      Answers → StereoCodecSurfaces → Decoder f → Display C → Decoder f × Display C × Bool
  unfolding create_h264_decoder
  open_codecs a surfaces d s =
      let d₁ : Decoder f = record d {
        left_window = surfaces.left_window;
        right_window = surfaces.right_window;
        surface_generation = surfaces.generation;
        surface_output = true;
        left_codec = (create_h264_decoder a.left_create).0;
        right_codec = (create_h264_decoder a.right_create).0;
      } in
      if is_started d₁ then (d₁, s, true) else ((stop d₁ s).0, (stop d₁ s).1, false)

  -- The part behind the first two tests.
  unfoldable pub restart :
      VideoFrameHeader → Answers → Decoder f → Display C → Decoder f × Display C × Bool
  restart h a d s =
      let d₁ : Decoder f = record (stop d s).0 { width = h.width; height = h.height } in
      elim (acquire_stereo_codec_surfaces (stop d s).1) [
        | none ↦ (d₁, (stop d s).1, false)
        | some (surfaces, s₁) ↦ open_codecs a surfaces d₁ s₁
      ]

  -- The decoder, the globals, and the result.
  unfoldable pub ensure_started :
      VideoFrameHeader → Answers → Decoder f → Display C → Decoder f × Display C × Bool
  ensure_started h a d s =
      if h.width == 0 || h.height == 0 || h.left_payload_size == 0 || h.right_payload_size == 0
      then (d, s, false)
      else if is_started d && (d.width == h.width && d.height == h.height)
      then (d, s, true)
      else restart h a d s

  unfoldable pub surface_path : Answers → Decoder f → Display C → Decoder f × Display C
  unfolding drained select_surface publish_surface log_stats
  surface_path a d s =
      let d₁ : Decoder f = drained a d in
      elim (select_surface d₁.has_published_frame d₁.last_published_frame_index
        d₁.surface_right_ready none d₁.surface_left_ready) [
          | none ↦ (log_stats a.stats_time_ns d₁, s)
          | some k ↦
              let (d₂, s₂) = publish_surface k a.publish_time_ns d₁ s in
              (log_stats a.stats_time_ns d₂, s₂)
        ]

  unfoldable pub cpu_path : Answers → Decoder f → Display C → Decoder f × Display C
  unfolding store_frames select_cpu publish_cpu log_stats
  cpu_path a d s =
      let d₁ : Decoder f = record d {
        decoded_left_by_frame = store_frames a.left_frames d.decoded_left_by_frame;
        decoded_right_by_frame = store_frames a.right_frames d.decoded_right_by_frame;
      } in
      elim (select_cpu (d.width * d.height * 4 % 2 ^ 64) d₁.has_published_frame
        d₁.last_published_frame_index d₁.decoded_right_by_frame none d₁.decoded_left_by_frame) [
          | none ↦ (log_stats a.stats_time_ns d₁, s)
          | some k ↦
              let (d₂, s₂) = publish_cpu k a.publish_time_ns d₁ s in
              (log_stats a.stats_time_ns d₂, s₂)
        ]

  -- A frame index far behind the last one published restarts the decoder.
  unfoldable pub restart_if_behind :
      VideoFrameHeader → Decoder f → Display C → Decoder f × Display C
  restart_if_behind h d s =
      if d.has_published_frame && ltb ((h.frame_index + 2) % 2 ^ 64) d.last_published_frame_index
      then stop d s
      else (d, s)

  unfoldable pub decode :
      VideoFrameHeader
      → (left_payload right_payload : List ℕ) → Answers
      → Decoder f
      → Display C
      → Decoder f × Display C × Bool
  decode h left_payload right_payload a d s =
      let (d₁, s₁) = restart_if_behind h d s in
      let d₂ : Decoder f = record d₁ { received_frames = inc d₁.received_frames } in
      let (d₃, s₃, ok) = ensure_started h a d₂ s₁ in
      if not ok
      then (d₃, s₃, false)
      else let (d₄, queued) = queue_both h left_payload right_payload a d₃ in
        let (d₅, s₅) = if d₄.surface_output then surface_path a d₄ s₃ else cpu_path a d₄ s₃ in
        (d₅, s₅, queued)
