-- ===== src/Host/Callback.antt =====
-- The packet callback of `main` and `formatPoseSummary` of host_bridge/tools/host_bridge_demo.cpp.
-- What the callback hands to `server.send` is its output; `now` is what `monotonicTimeNs` returns.
use robo_vr.Base.{
  ℕ, ◌+◌, ◌%◌, ◌^◌, ◌==◌, if◌then◌else◌, Bool, not, ◌&&◌, List, [], ◌∷◌, ◌++◌, map, ℤ,
}
use robo_vr.Base.Text.{codes}
use robo_vr.Protocol.Types.{PacketType, hello, heartbeat, pose, video, stats, type_code}
use robo_vr.Protocol.KeyValue.Defs.{Values, parse_key_value_payload, get_value}
use robo_vr.Protocol.KeyValue.Format.{Pair}
use robo_vr.Video.Decoder.State.{Millis}
use robo_vr.Server.Defs.{Packet}
use robo_vr.Host.Payloads.{make_video_test_pattern_payload}
use robo_vr.Host.Stats.{VideoStats, handle_stats_payload}

-- The texts of the stream operators, each with the key of the value behind it.
abbrev pub summary_parts : List Pair
summary_parts =
    (codes "head=(", codes "head_px")
    ∷ (codes ",", codes "head_py")
    ∷ (codes ",", codes "head_pz")
    ∷ (codes ") ipd_m=", codes "ipd_m")
    ∷ (codes " Lfov=(", codes "left_fov_left")
    ∷ (codes ",", codes "left_fov_right")
    ∷ (codes ",", codes "left_fov_up")
    ∷ (codes ",", codes "left_fov_down")
    ∷ (codes ") Rfov=(", codes "right_fov_left")
    ∷ (codes ",", codes "right_fov_right")
    ∷ (codes ",", codes "right_fov_up")
    ∷ (codes ",", codes "right_fov_down")
    ∷ (codes ") L{grip=", codes "left_grip_flags")
    ∷ (codes " aim=", codes "left_aim_flags")
    ∷ (codes " trig=", codes "left_trigger")
    ∷ (codes " sqz=", codes "left_squeeze")
    ∷ (codes " X=", codes "button_x")
    ∷ (codes " Y=", codes "button_y")
    ∷ (codes "} R{grip=", codes "right_grip_flags")
    ∷ (codes " aim=", codes "right_aim_flags")
    ∷ (codes " trig=", codes "right_trigger")
    ∷ (codes " sqz=", codes "right_squeeze")
    ∷ (codes " A=", codes "button_a")
    ∷ (codes " B=", codes "button_b")
    ∷ []

-- Each text and the value behind it, and what closes the summary.
abbrev pub render : List Pair → List ℕ
render [] = codes "}"
render ((text, value) ∷ ps) = text ++ value ++ render ps

abbrev pub shown_part : Values → Pair → Pair
shown_part values (text, key) = (text, get_value values key (codes "?"))

unfoldable pub format_pose_summary : List ℕ → List ℕ
format_pose_summary payload =
    render (map (shown_part (parse_key_value_payload payload)) summary_parts)

-- The static counters of the callback, and the statistics behind the mutex.
pub record Bridge (f : Millis) : Type 0 where
  pub heartbeat_count : ℕ
  pub pose_count : ℕ
  pub video_frame : ℕ
  pub stats : VideoStats f

-- What is handed to `server.send`.
abbrev pub Sent : Type 0
Sent = List (PacketType × List ℕ)

-- `++pose_count`, and every tenth time a frame of the test pattern.
unfoldable pub on_pose : {f : Millis} → Bool → ℤ → Bridge f → Bridge f × Sent
on_pose has_h264_stream now b =
    let count = (b.pose_count + 1) % 2 ^ 64 in
    let counted = record b { pose_count = count } in
    if not has_h264_stream && count % 10 == 1
    then (
      record counted { video_frame = (b.video_frame + 1) % 2 ^ 64 },
      (video, make_video_test_pattern_payload b.video_frame now) ∷ [],
    )
    else (counted, [])

module _ {f : Millis} (strtoull : List ℕ → ℕ) (has_h264_stream : Bool) where
  unfoldable pub on_packet : ℤ → Packet → Bridge f → Bridge f × Sent
  unfolding on_pose handle_stats_payload
  on_packet now (header, payload) b =
      if header.type == type_code heartbeat
      then (
        record b { heartbeat_count = (b.heartbeat_count + 1) % 2 ^ 64 },
        (heartbeat, codes "host_alive=1") ∷ [],
      )
      else if header.type == type_code pose
      then on_pose has_h264_stream now b
      else if header.type == type_code stats
      then (record b { stats = handle_stats_payload strtoull now payload b.stats }, [])
      else if header.type == type_code hello
      then (b, (hello, codes "host=robovr;protocol=1") ∷ [])
      else (b, [])

  -- The packets in their order, each with the clock at its callback.
  unfoldable pub on_packets : List (ℤ × Packet) → Bridge f → Bridge f × Sent
  unfolding on_packet
  on_packets [] b = (b, [])
  on_packets ((now, packet) ∷ packets) b =
      let (b', sent) = on_packet now packet b in
      let (b'', later) = on_packets packets b' in (b'', sent ++ later)
