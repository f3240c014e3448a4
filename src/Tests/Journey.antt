-- ===== src/Tests/Journey.antt =====
-- The first pose that the host answers, over a socket that takes all bytes at once.
use robo_vr.Base.{
  ℕ, suc, ◌+◌, ◌≤◌, ◌<◌, ◌≡◌, refl, ap, ◌∙◌, ltb, Bool, true, false, List, [], ◌∷◌, ◌++◌, take,
  drop, take_all, some, length, arith, pos,
}
use robo_vr.Protocol.Types.{PacketHeader, video, make_packet_header, pack_header}
use robo_vr.Protocol.RoundTrip.{length-pack_header}
use robo_vr.Socket.Api.{Socket, Sent, sent}
use robo_vr.Socket.Exact.{Write, write_exact, write_loop}
use robo_vr.Link.Packets.{send_packet}
use robo_vr.Host.Payloads.{make_video_test_pattern_payload}
use robo_vr.Host.Callback.{Bridge, on_pose}
use robo_vr.Client.Transport.{Client}
use robo_vr.Client.Loop.{Round, receive_host_packets}
use robo_vr.EndToEnd.{pattern_frame, pattern_length, pose_frame_published}
use robo_vr.Tests.Pipe.{Pipe, recv_pipe, recv_law, interrupted_law, pipe, pipe-IsDelivering}
use robo_vr.Tests.Video.{nanos, answers}
use robo_vr.Tests.Bridge.{two_sent, tenths, client, print, print_pose}

unfoldable send_flood : Pipe → List ℕ → Sent Pipe
send_flood p bs = sent (length bs) (record p { gone = p.gone ++ bs })

flood_law :
    (p : Pipe) (bs : List ℕ) (k : ℕ) (c : Pipe)
    → send_flood p bs ≡ sent k c
    → 1 ≤ length bs
    → (1 ≤ k)
      × (k ≤ length bs)
      × (c.gone ≡ p.gone ++ take k bs)
      × (c.coming ≡ p.coming)
      × (c.interrupts ≤ p.interrupts)
unfolding send_flood
flood_law p bs k c r h = ground (arith, take_all (length bs) bs)

never_interrupted :
    (p : Pipe) (bs : List ℕ) (c : Pipe)
    → send_flood p bs ≡ Sent.interrupted c
    → (c.coming ≡ p.coming) × (c.gone ≡ p.gone) × (c.interrupts < p.interrupts)
unfolding send_flood
never_interrupted p bs c r = cc

never_failed :
    (p : Pipe) (bs : List ℕ) (c : Pipe)
    → send_flood p bs ≡ Sent.failed c
    → (c.coming ≡ p.coming) × (c.gone ≡ p.gone) × (c.interrupts ≤ p.interrupts)
unfolding send_flood
never_failed p bs c r = cc

abbrev flood : Socket
flood = record {
  Conn = Pipe;
  recv = λ p n. recv_pipe p p.interrupts n;
  send = λ p bs. send_flood p bs;
  inbound = λ p. p.coming;
  outbound = λ p. p.gone;
  patience = λ p. p.interrupts;
  recv_got = λ p n bs c r. recv_law p p.interrupts n bs c r;
  recv_interrupted = λ p n c r. interrupted_law p p.interrupts n c refl r;
  send_sent = λ p bs k c r h. flood_law p bs k c r h;
  send_interrupted = λ p bs c r. never_interrupted p bs c r;
  send_failed = λ p bs c r. never_failed p bs c r;
}

write_flood :
    (k : ℕ) (p : Pipe) (bytes : List ℕ)
    → 1 ≤ length bytes
    → write_exact flood (suc (suc k)) p bytes ≡ Write.done (record p { gone = p.gone ++ bytes })
unfolding write_exact send_flood
write_flood k p bytes h = ap once some_left ∙ ap twice all_sent
  where
    some_left : ltb 0 (length bytes) ≡ true
    some_left = ground (arith, h)

    all_sent : ltb (0 + length bytes) (length bytes) ≡ false
    all_sent = ground arith

    twice : Bool → Write Pipe
    twice b = elim b [
      | false ↦ Write.done (record p { gone = p.gone ++ bytes })
      | true ↦
          write_loop flood k
            (record p { gone = (p.gone ++ bytes) ++ drop (0 + length bytes) bytes }) bytes
            (0 + length bytes + length (drop (0 + length bytes) bytes))
    ]

    once : Bool → Write Pipe
    once b = elim b [ false ↦ Write.done p | true ↦ twice (ltb (0 + length bytes) (length bytes)) ]

abbrev up : Pipe
up = record { coming = []; gone = []; interrupts = 0 }

abbrev first_pattern : List ℕ
first_pattern = make_video_test_pattern_payload 0 (pos 5)

abbrev first_header : PacketHeader
first_header = make_packet_header video 1 (pos 6) (length first_pattern)

abbrev up_sent : Pipe
up_sent = record up { gone = ([] ++ pack_header first_header) ++ first_pattern }

pattern_sent : send_packet flood 200_000 up video 1 (pos 6) first_pattern ≡ Write.done up_sent
unfolding send_packet
pattern_sent =
    let size : length first_pattern ≡ 131112 = pattern_length 0 (pos 5) in
    ap then_payload (
      write_flood 199_998 up (pack_header first_header)
        (omega (arith, length-pack_header first_header)))
    ∙ write_flood 199_998 (record up { gone = [] ++ pack_header first_header }) first_pattern
        (omega (arith, size))
  where
    then_payload : Write Pipe → Write Pipe
    then_payload w = elim w [
      | Write.done c ↦ write_exact flood 200_000 c first_pattern
      | Write.stop c ↦ Write.stop c
      | Write.stuck ↦ Write.stuck
    ]

abbrev a_round : Round
a_round = record {
  answers = answers;
  receive = record { fuel = 2_000_000; now = pos 7 };
  acknowledge = record { fuel = 100; now = pos 8 };
}

abbrev receiving : Client pipe nanos tenths ℕ
receiving = record client {
  conn = record { coming = up_sent.gone ++ 9 ∷ []; gone = []; interrupts = 1 };
}

abbrev new_bridge : Bridge nanos
new_bridge = record { heartbeat_count = 0; pose_count = 0; video_frame = 0; stats = two_sent }

pose_frame_published_example :
    ((on_pose false (pos 5) new_bridge).1 ≡ (video, first_pattern) ∷ [])
    × ((c' : Client pipe nanos tenths ℕ) × (receive_host_packets pipe tenths print print_pose
            (a_round ∷ [])
            receiving
          ≡ Write.done c')
        × (c'.display.stereo_frame ≡ some (pattern_frame 0))
        × (c'.conn.coming ≡ 9 ∷ []))
pose_frame_published_example =
    pose_frame_published flood pipe tenths print print_pose new_bridge (pos 5) (pos 6) 1 200_000 up
      up_sent a_round receiving (9 ∷ []) pipe-IsDelivering refl (omega arith) (omega arith)
      (omega arith) (omega arith) (omega arith) (omega arith) refl pattern_sent refl refl
