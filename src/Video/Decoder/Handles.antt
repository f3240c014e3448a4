-- ===== src/Video/Decoder/Handles.antt =====
-- The fields of the decoder that say whether it runs, through the operations that only pass frames on.
use robo_vr.Base.{
  ℕ, ◌≡◌, refl, ap, ◌∙◌, Bool, true, false, ◌&&◌, List, Option, none, some, if◌then◌else◌, ℤ, ◌-ℤ◌,
  pos, leb_ℤ,
}
use robo_vr.Protocol.Types.{VideoFrameHeader}
use robo_vr.Video.Display.{Display, publish_stereo_codec_frame}
use robo_vr.Video.Decoder.State.{VideoDecodeAck, Millis, Decoder}
use robo_vr.Video.Decoder.Codec.{Queued, queue_access_unit}
use robo_vr.Video.Decoder.Select.{select_surface}
use robo_vr.Base.Map.{lookup, insert}
use robo_vr.Video.Decoder.Publish.{measure, settle, inc, publish_surface, log_stats}
use robo_vr.Video.Decoder.Decode.{Answers, drained, with_input, queue_both, surface_path}

module _ {f : Millis} where
  -- Codecs, windows and the kind of output.
  abbrev pub handles : Decoder f → Option ℕ × Option ℕ × Option ℕ × Option ℕ × Bool
  handles d = (d.left_codec, d.right_codec, d.left_window, d.right_window, d.surface_output)

  -- What has been published and acknowledged.
  abbrev pub progress : Decoder f → List (VideoDecodeAck f) × Bool × ℕ
  progress d = (d.pending_acks, d.has_published_frame, d.last_published_frame_index)

  -- The logging moves only the clock of the statistics.
  pub log_stats_clock :
      (now : ℤ) (d : Decoder f)
      → (time : ℤ) × (log_stats now d ≡ record d { last_stats_time_ns = time })
  unfolding log_stats
  log_stats_clock now d =
      by_tests (leb_ℤ d.last_stats_time_ns (pos 0) && leb_ℤ (pos 0) d.last_stats_time_ns)
        (leb_ℤ (pos 1_000_000_000) (now -ℤ d.last_stats_time_ns))
    where
      by_tests :
          (first due : Bool)
          → (time : ℤ) × ((if first
                then record d { last_stats_time_ns = now }
                else if due
                then record d { last_stats_time_ns = now }
                else d)
              ≡ record d { last_stats_time_ns = time })
      by_tests true due = (now, refl)
      by_tests false true = (now, refl)
      by_tests false false = (d.last_stats_time_ns, refl)

  -- The measurement changes only the two latencies.
  pub measure_latencies :
      (k : ℕ) (now : ℤ) (d : Decoder f)
      → (latest sum : f.Value) × (measure k now d
          ≡ record d { latest_latency_ms = latest; latency_sum_ms = sum })
  unfolding measure
  measure_latencies k now d = by_lookup (lookup k d.receive_time_by_frame)
    where
      by_lookup :
          (r : Option ℤ)
          → (latest sum : f.Value) × (elim r [
            | none ↦ d
            | some received ↦
                let latest = f.of_ns (now -ℤ received) in
                record d {
                  latest_latency_ms = latest;
                  latency_sum_ms = f.add d.latency_sum_ms latest;
                }
          ]
              ≡ record d { latest_latency_ms = latest; latency_sum_ms = sum })
      by_lookup none = (d.latest_latency_ms, d.latency_sum_ms, refl)
      by_lookup (some received) = (_, _, refl)

  pub log_stats-handles : (now : ℤ) (d : Decoder f) → handles (log_stats now d) ≡ handles d
  log_stats-handles now d = ap handles (log_stats_clock now d).1

  measure-handles : (k : ℕ) (now : ℤ) (d : Decoder f) → handles (measure k now d) ≡ handles d
  measure-handles k now d = ap handles (measure_latencies k now d).2

  pub queue_both-handles :
      (h : VideoFrameHeader) (left right : List ℕ) (a : Answers) (d : Decoder f)
      → (handles (queue_both h left right a d).0 ≡ handles d)
        × (progress (queue_both h left right a d).0 ≡ progress d)
  unfolding queue_both
  queue_both-handles h left right a d = by_test (l.result && r.result)
    where
      l : Queued
      l = queue_access_unit d.left_codec left h.left_payload_size a.left_input

      r : Queued
      r = queue_access_unit d.right_codec right h.right_payload_size a.right_input

      fed : Decoder f
      fed = record d {
        left_inputs = with_input h.frame_index l.input d.left_inputs;
        right_inputs = with_input h.frame_index r.input d.right_inputs;
      }

      by_test :
          (b : Bool)
          → let e : Decoder f × Bool =
              if b
              then (
                record fed {
                  queued_frames = inc d.queued_frames;
                  receive_time_by_frame =
                      insert h.frame_index a.receive_time_ns d.receive_time_by_frame;
                },
                true,
              )
              else (record fed { dropped_input_frames = inc d.dropped_input_frames }, false) in
            (handles e.0 ≡ handles d) × (progress e.0 ≡ progress d)
      by_test true = (refl, refl)
      by_test false = (refl, refl)

module _ {f : Millis} {C : Type 0} where
  pub publish_surface-handles :
      (k : ℕ) (now : ℤ) (d : Decoder f) (s : Display C)
      → (handles (publish_surface k now d s).0 ≡ handles d)
        × ((publish_surface k now d s).1.acquired ≡ s.acquired)
  unfolding publish_surface settle publish_stereo_codec_frame
  publish_surface-handles k now d s =
      (measure-handles k now (record d { decoded_frames = inc d.decoded_frames }), refl)

  pub surface_path-handles :
      (a : Answers) (d : Decoder f) (s : Display C)
      → (handles (surface_path a d s).0 ≡ handles d)
        × ((surface_path a d s).1.acquired ≡ s.acquired)
  unfolding surface_path drained
  surface_path-handles a d s = by_choice (
      select_surface d.has_published_frame d.last_published_frame_index marked.surface_right_ready
        none marked.surface_left_ready)
    where
      marked : Decoder f
      marked = drained a d

      by_choice :
          (c : Option ℕ)
          → let e : Decoder f × Display C = elim c [
            | none ↦ (log_stats a.stats_time_ns marked, s)
            | some k ↦
                let p = publish_surface k a.publish_time_ns marked s in
                (log_stats a.stats_time_ns p.0, p.1)
          ] in
            (handles e.0 ≡ handles d) × (e.1.acquired ≡ s.acquired)
      by_choice none = (log_stats-handles _ marked, refl)
      by_choice (some k) =
          let p = publish_surface-handles k a.publish_time_ns marked s in
          (log_stats-handles _ (publish_surface k a.publish_time_ns marked s).0 ∙ p.0, p.1)
