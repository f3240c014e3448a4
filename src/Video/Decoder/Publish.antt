-- ===== src/Video/Decoder/Publish.antt =====
-- The part of `decode` that publishes a frame, and its statistics. The counters are `std::uint64_t`.
use robo_vr.Base.{
  ℕ, ◌+◌, ◌%◌, ◌^◌, leb, if◌then◌else◌, Bool, true, false, ◌&&◌, [], ◌∷◌, ◌++◌, none, some, ℤ, pos,
  ◌-ℤ◌, leb_ℤ,
}
use robo_vr.Base.Map.{lookup, erase_if}
use robo_vr.Video.Display.{Display, publish_stereo_codec_frame, publish_stereo_video_frame}
use robo_vr.Video.Decoder.State.{Millis, Decoder}
use robo_vr.Video.Decoder.Select.{pixels_of}

abbrev pub inc : ℕ → ℕ
inc n = (n + 1) % 2 ^ 64

module _ {f : Millis} where
  -- The part of both paths that measures the latency of the frame that is published.
  unfoldable pub measure : ℕ → ℤ → Decoder f → Decoder f
  measure k now d = elim (lookup k d.receive_time_by_frame) [
    | none ↦ d
    | some received ↦
        let latest = f.of_ns (now -ℤ received) in
        record d { latest_latency_ms = latest; latency_sum_ms = f.add d.latency_sum_ms latest }
  ]

  -- Acknowledge the frame, remember it, and forget everything up to it.
  unfoldable pub settle : Bool → ℕ → Decoder f → Decoder f
  settle surface k d = record d {
    pending_acks =
        d.pending_acks
        ++ (record {
          frame_index = k;
          quest_receive_to_publish_ms = d.latest_latency_ms;
          surface_output = surface;
        }
            ∷ []);
    last_published_frame_index = k;
    has_published_frame = true;
    receive_time_by_frame = erase_if (λ j. leb j k) d.receive_time_by_frame;
  }

  -- The logging at the end of both paths, whose only effect on the state is its clock.
  unfoldable pub log_stats : ℤ → Decoder f → Decoder f
  log_stats now d =
      if leb_ℤ d.last_stats_time_ns (pos 0) && leb_ℤ (pos 0) d.last_stats_time_ns
      then record d { last_stats_time_ns = now }
      else if leb_ℤ (pos 1_000_000_000) (now -ℤ d.last_stats_time_ns)
      then record d { last_stats_time_ns = now }
      else d

module _ {f : Millis} {C : Type 0} where
  unfoldable pub publish_surface : ℕ → ℤ → Decoder f → Display C → Decoder f × Display C
  unfolding measure settle
  publish_surface k now d s =
      let d₁ = settle true k (measure k now (record d { decoded_frames = inc d.decoded_frames })) in
      (
        record d₁ {
          surface_left_ready = erase_if (λ j. leb j k) d₁.surface_left_ready;
          surface_right_ready = erase_if (λ j. leb j k) d₁.surface_right_ready;
        },
        publish_stereo_codec_frame (k % 2 ^ 32) s,
      )

  unfoldable pub publish_cpu : ℕ → ℤ → Decoder f → Display C → Decoder f × Display C
  unfolding measure settle
  publish_cpu k now d s =
      let d₁ =
        settle false k (measure k now (record d { decoded_frames = inc d.decoded_frames })) in
      (
        record d₁ {
          decoded_left_by_frame = erase_if (λ j. leb j k) d₁.decoded_left_by_frame;
          decoded_right_by_frame = erase_if (λ j. leb j k) d₁.decoded_right_by_frame;
        },
        publish_stereo_video_frame
            (record {
              frame_index = k % 2 ^ 32;
              width = d.width;
              height = d.height;
              left_rgba = pixels_of (lookup k d.decoded_left_by_frame);
              right_rgba = pixels_of (lookup k d.decoded_right_by_frame);
            })
            s,
      )
