-- ===== src/Host/Replies.antt =====
-- What the packet callback of host_bridge/tools/host_bridge_demo.cpp has sent after a run of packets.
use mathlib.Core.Path.{subst}
use robo_vr.Base.{
  ℕ, ◌+◌, ◌/◌, ◌%◌, ◌^◌, ◌<◌, ◌≡◌, ◌≢◌, refl, ap, sym, ◌∙◌, ◌==◌, if◌then◌else◌, Bool, true, false,
  not, ◌&&◌, List, [], ◌∷◌, ◌++◌, arith, ℤ,
}
use robo_vr.Base.Text.{codes}
use robo_vr.Protocol.Types.{PacketType, hello, heartbeat, pose, video, stats, type_code}
use robo_vr.Video.Decoder.State.{Millis}
use robo_vr.Server.Defs.{Packet}
use robo_vr.Host.Payloads.{make_video_test_pattern_payload}
use robo_vr.Host.Stats.{handle_stats_payload}
use robo_vr.Host.Callback.{Bridge, Sent, on_pose, on_packet, on_packets}

abbrev one_if : Bool → ℕ
one_if b = if b then 1 else 0

abbrev pub sent_of : PacketType → Sent → ℕ
sent_of t [] = 0
sent_of t ((u, payload) ∷ sent) = one_if (type_code u == type_code t) + sent_of t sent

abbrev pub received_of : PacketType → List (ℤ × Packet) → ℕ
received_of t [] = 0
received_of t ((now, (header, payload)) ∷ packets) =
    one_if (header.type == type_code t) + received_of t packets

-- The frames of the test pattern that `n` poses ask for.
abbrev pub frames_due : Bool → ℕ → ℕ
frames_due has_h264_stream n = if has_h264_stream then 0 else (n + 9) / 10

sent_of-append :
    (t : PacketType) (xs ys : Sent) → sent_of t (xs ++ ys) ≡ sent_of t xs + sent_of t ys
sent_of-append t [] ys = omega arith
sent_of-append t ((u, payload) ∷ xs) ys = omega (arith, sent_of-append t xs ys)

-- The frames sent have the numbers from `n` on, up to but not including `m`: each video payload is the
-- test pattern of the next number, made at some time.
abbrev pub Numbered : ℕ → Sent → ℕ → Type 0
Numbered n [] m = n ≡ m
Numbered n ((u, payload) ∷ sent) m = elim (type_code u == type_code video) [
  | true ↦ ((now : ℤ) × (payload ≡ make_video_test_pattern_payload n now)) × Numbered (n + 1) sent m
  | false ↦ Numbered n sent m
]

Numbered-append :
    (n m k : ℕ) (xs ys : Sent) → Numbered n xs m → Numbered m ys k → Numbered n (xs ++ ys) k
Numbered-append n m k [] ys e h = subst (λ i. Numbered i ys k) (sym e) h
Numbered-append n m k ((u, payload) ∷ xs) ys h g =
    by_test (type_code u == type_code video) (λ i w. Numbered-append i m k xs ys w g) h
  where
    by_test :
        (b : Bool)
        → ((i : ℕ) → Numbered i xs m → Numbered i (xs ++ ys) k)
        → elim b as (λ _. Type 0) [
          | true ↦
              ((now : ℤ) × (payload ≡ make_video_test_pattern_payload n now))
              × Numbered (n + 1) xs m
          | false ↦ Numbered n xs m
        ]
        → elim b as (λ _. Type 0) [
          | true ↦
              ((now : ℤ) × (payload ≡ make_video_test_pattern_payload n now))
              × Numbered (n + 1) (xs ++ ys) k
          | false ↦ Numbered n (xs ++ ys) k
        ]
    by_test true again (p, w) = (p, again (n + 1) w)
    by_test false again w = again n w

-- From `b` to `b'`, with `sent`, over `poses`, `beats` and `hellos` packets of the three types.
pub record Outcome {f : Millis} (has : Bool) (b b' : Bridge f) (sent : Sent)
    (poses beats hellos : ℕ) : Type 0 where
  pub pose_count : b'.pose_count ≡ b.pose_count + poses
  pub frames : b'.video_frame ≡ frames_due has b'.pose_count
  pub numbered : Numbered b.video_frame sent b'.video_frame
  pub beat_replies : sent_of heartbeat sent ≡ beats
  pub hello_replies : sent_of hello sent ≡ hellos

on_pose-Outcome :
    {f : Millis} (has : Bool) (now : ℤ) (b : Bridge f)
    → b.pose_count + 1 < 2 ^ 64
    → b.video_frame ≡ frames_due has b.pose_count
    → let (b', sent) = on_pose has now b in Outcome has b b' sent 1 0 0
unfolding on_pose
on_pose-Outcome {f} has now b small due = by_tests has due _ refl
  where
    count : ℕ
    count = (b.pose_count + 1) % 2 ^ 64

    by_tests :
        (h : Bool)
        → b.video_frame ≡ frames_due h b.pose_count
        → (a : Bool) → (not h && count % 10 == 1) ≡ a
        → let counted = record b { pose_count = count } in
          let (b', sent) : Bridge f × Sent =
            if a
            then (
              record counted { video_frame = (b.video_frame + 1) % 2 ^ 64 },
              (video, make_video_test_pattern_payload b.video_frame now) ∷ [],
            )
            else (counted, []) in
          Outcome h b b' sent 1 0 0
    by_tests true e true g = absurd (ground (arith, g))
    by_tests false e true g =
        let tenth : count % 10 ≡ 1 = ground (arith, g) in
        record {
          pose_count = omega (arith, small);
          frames = omega (arith, small, tenth, e);
          numbered = ((now, refl), omega (arith, small, e));
          beat_replies = refl;
          hello_replies = refl;
        }
    by_tests true e false g = record {
      pose_count = omega (arith, small);
      frames = omega (arith, e);
      numbered = refl;
      beat_replies = refl;
      hello_replies = refl;
    }
    by_tests false e false g =
        let differ : count % 10 ≢ 1 = ground (arith, g) in
        record {
          pose_count = omega (arith, small);
          frames = omega (arith, small, differ, e);
          numbered = refl;
          beat_replies = refl;
          hello_replies = refl;
        }

on_packet-Outcome :
    {f : Millis} (strtoull : List ℕ → ℕ) (has : Bool) (now : ℤ) (packet : Packet) (b : Bridge f)
    → b.pose_count + one_if (packet.0.type == type_code pose) < 2 ^ 64
    → b.video_frame ≡ frames_due has b.pose_count
    → let (b', sent) = on_packet strtoull has now packet b in
      Outcome has b b' sent
        (one_if (packet.0.type == type_code pose))
        (one_if (packet.0.type == type_code heartbeat))
        (one_if (packet.0.type == type_code hello))
unfolding on_packet
on_packet-Outcome {f} strtoull has now (header, payload) b small due =
    by_tests _ refl _ refl small _ refl _ refl
  where
    t : ℕ
    t = header.type

    quiet :
        (b' : Bridge f) (sent : Sent)
        → b'.pose_count ≡ b.pose_count
        → b'.video_frame ≡ b.video_frame
        → Numbered b.video_frame sent b.video_frame
        → Outcome has b b' sent 0 (sent_of heartbeat sent) (sent_of hello sent)
    quiet b' sent p v none_sent = record {
      pose_count = omega (arith, p);
      frames = v ∙ due ∙ ap (frames_due has) (sym p);
      numbered = subst (λ n. Numbered b.video_frame sent n) (sym v) none_sent;
      beat_replies = refl;
      hello_replies = refl;
    }

    by_tests :
        (beat : Bool)
        → (t == type_code heartbeat) ≡ beat
        → (posed : Bool) → (t == type_code pose) ≡ posed
        → b.pose_count + one_if posed < 2 ^ 64
        → (reported : Bool) → (t == type_code stats) ≡ reported
        → (greeted : Bool) → (t == type_code hello) ≡ greeted
        → let (b', sent) : Bridge f × Sent =
            if beat
            then (
              record b { heartbeat_count = (b.heartbeat_count + 1) % 2 ^ 64 },
              (heartbeat, codes "host_alive=1") ∷ [],
            )
            else if posed
            then on_pose has now b
            else if reported
            then (record b { stats = handle_stats_payload strtoull now payload b.stats }, [])
            else if greeted
            then (b, (hello, codes "host=robovr;protocol=1") ∷ [])
            else (b, []) in
          Outcome has b b' sent (one_if posed) (one_if beat) (one_if greeted)
    by_tests true e true g k r i s j = absurd (ground (arith, e, g))
    by_tests true e false g k r i true j = absurd (ground (arith, e, j))
    by_tests true e false g k r i false j = quiet _ _ refl refl refl
    by_tests false e true g k r i true j = absurd (ground (arith, g, j))
    by_tests false e true g k r i false j = on_pose-Outcome has now b k due
    by_tests false e false g k true i true j = absurd (ground (arith, i, j))
    by_tests false e false g k true i false j = quiet _ _ refl refl refl
    by_tests false e false g k false i true j = quiet _ _ refl refl refl
    by_tests false e false g k false i false j = quiet _ _ refl refl refl

chain :
    {f : Millis} (has : Bool) (b b₁ b₂ : Bridge f) (xs ys : Sent) (p q h i l m : ℕ)
    → Outcome has b b₁ xs p h l
    → Outcome has b₁ b₂ ys q i m
    → Outcome has b b₂ (xs ++ ys) (p + q) (h + i) (l + m)
chain has b b₁ b₂ xs ys p q h i l m o u = record {
  pose_count = omega (arith, o.pose_count, u.pose_count);
  frames = u.frames;
  numbered =
      Numbered-append b.video_frame b₁.video_frame b₂.video_frame xs ys o.numbered u.numbered;
  beat_replies = omega (arith, o.beat_replies, u.beat_replies, sent_of-append heartbeat xs ys);
  hello_replies = omega (arith, o.hello_replies, u.hello_replies, sent_of-append hello xs ys);
}

-- Over any packets, fewer than 2^64 of them poses: the callback counts the poses, has sent one frame
-- of the test pattern for the first pose and every tenth after it, and none when an H.264 stream is
-- loaded, whose numbers go up by one from that of the frame that was next, and has answered each heartbeat and each hello once.
pub on_packets-Outcome :
    {f : Millis} (strtoull : List ℕ → ℕ) (has : Bool) (packets : List (ℤ × Packet)) (b : Bridge f)
    → b.pose_count + received_of pose packets < 2 ^ 64
    → b.video_frame ≡ frames_due has b.pose_count
    → let (b', sent) = on_packets strtoull has packets b in
      Outcome has b b' sent
        (received_of pose packets)
        (received_of heartbeat packets)
        (received_of hello packets)
unfolding on_packets
on_packets-Outcome strtoull has [] b small due = record {
  pose_count = omega arith;
  frames = due;
  numbered = refl;
  beat_replies = refl;
  hello_replies = refl;
}
on_packets-Outcome strtoull has ((now, packet) ∷ packets) b small due =
    let (b₁, sent) = on_packet strtoull has now packet b in
    let first = on_packet-Outcome strtoull has now packet b (omega (arith, small)) due in
    let bound : b₁.pose_count + received_of pose packets < 2 ^ 64 =
      omega (arith, first.pose_count, small) in
    chain has b b₁ _ sent _ _ _ _ _ _ _ first
      (on_packets-Outcome strtoull has packets b₁ bound first.frames)
