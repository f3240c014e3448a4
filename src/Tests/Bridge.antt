-- ===== src/Tests/Bridge.antt =====
-- The host's statistics and pace, and a pass of the client over the pipe.
use robo_vr.Base.{
  All, length, ◌≤◌, false, ℕ, ◌+◌, ◌-◌, ◌/◌, ◌%◌, ◌^◌, ◌≤◌, ◌≡◌, ◌⊎◌, ◌||◌, ◌==◌, ltb,
  if◌then◌else◌, refl, true, List, [], ◌∷◌, ◌++◌, none, some, ℤ, pos, arith,
}
use robo_vr.Base.Map.{lookup}
use robo_vr.Base.Text.{codes}
use robo_vr.Protocol.Types.{PacketType, make_packet_header}
use robo_vr.Protocol.KeyValue.Defs.{
  get_value, parse_key_value_payload, after, emplace_field, key_value,
}
use robo_vr.Link.Delivery.{wire}
use robo_vr.Video.Decoder.State.{VideoDecodeAck}
use robo_vr.Host.Stats.{VideoStats, match_ack, forget_old, match_ack_lem, handle_stats_payload}
use robo_vr.Host.Pacing.{Pacer, choose_frame, choose_frame_lem}
use robo_vr.Client.Transport.{Client, Call, Floats, EyeColor}
use robo_vr.Client.Loop.{Round, receive_host_packets}
use robo_vr.Client.Progress.{max_report_size, IsEnoughRound, Ends, receive_host_packets-Ends}
use robo_vr.Session.{
  Session, Event, idle, ready, stopping, state_changed, refresh_rate_changed, handle_event,
  run_round, AllAllowed, IsPaired, run_round-IsPaired,
}
use robo_vr.Tests.Pipe.{pipe}
use robo_vr.Tests.Video.{nanos, answers, fresh_decoder, display, fresh-IsValid, fresh-IsOrdered}

abbrev pub two_sent : VideoStats nanos
two_sent = record {
  send_time_ns = (400, pos 10) ∷ (7, pos 4) ∷ (401, pos 12) ∷ [];
  ack_count = 2;
  ack_latency_sum_ms = pos 0;
  latest_ack_frame = 399;
  has_ack = true;
}

abbrev acked : VideoStats nanos
acked = forget_old 400 (match_ack 400 (pos 30) two_sent)

match_ack_lem_example :
    ((lookup 400 two_sent.send_time_ns ≡ none)
        × (acked.ack_count ≡ 2)
        × (acked.latest_ack_frame ≡ 399)
        × (acked.has_ack ≡ true)
      ⊎ ((sent : ℤ) × (lookup 400 two_sent.send_time_ns ≡ some sent)
          × (acked.ack_count ≡ (2 + 1) % 2 ^ 64)
          × (acked.latest_ack_frame ≡ 400)
          × (acked.has_ack ≡ true)))
    × ((j : ℕ)
        → lookup j acked.send_time_ns ≡ (
            if j == 400 || ltb ((j + 300) % 2 ^ 64) 400
            then none
            else lookup j two_sent.send_time_ns))
match_ack_lem_example = match_ack_lem 400 (pos 30) two_sent

-- An acknowledgement as the client prints it; the parser of numbers is that of this one text.
stats_payload_read :
    (handle_stats_payload
      (λ text. 400)
      (pos 30)
      (codes "kind=video_ack;frame_index=400;surface=1")
      two_sent).latest_ack_frame
    ≡ 400
unfolding handle_stats_payload get_value parse_key_value_payload after emplace_field key_value
    lookup
stats_payload_read = refl

abbrev ahead : Pacer
ahead = record { video_frame = 410; next_frame_time = 1000; started_streaming = true }

choose_frame_lem_example :
    (true ≡ true → (choose_frame 100 1250 1251 two_sent ahead).video_frame ≤ 402)
    × (((choose_frame 100 1250 1251 two_sent ahead).video_frame ≡ 410)
        ⊎ (((choose_frame 100 1250 1251 two_sent ahead).video_frame
              ≡ (410 + (1250 - 1000) / 100) % 2 ^ 64)
            ⊎ ((choose_frame 100 1250 1251 two_sent ahead).video_frame ≡ 402)))
choose_frame_lem_example = choose_frame_lem 100 1250 1251 two_sent ahead (omega arith)

abbrev gray : EyeColor ℕ
gray = record { red = 5; green = 5; blue = 5; alpha = 10 }

abbrev pub tenths : Floats
tenths = record {
  Float = ℕ;
  one = 10;
  initial = record { left = gray; right = gray };
  strtof = λ text. some 3;
}

-- A video packet that holds colours, and a packet of version 1 cut off behind its header.
abbrev host_bytes : List ℕ
host_bytes =
    wire (make_packet_header PacketType.video 1 (pos 5) 10) (codes "left_r=0.3")
    ++ wire (make_packet_header PacketType.hello 2 (pos 6) 4) (1 ∷ [])

abbrev pub client : Client pipe nanos tenths ℕ
client = record {
  conn = record { coming = host_bytes; gone = []; interrupts = 1 };
  seq = 1;
  decoder = fresh_decoder;
  display = display tenths.initial;
  latest_pose = none;
}

abbrev pub a_call : Call
a_call = record { fuel = 20_000_000; now = pos 1 }

abbrev pub two_rounds : List Round
two_rounds =
    record { answers = answers; receive = a_call; acknowledge = a_call }
    ∷ record { answers = answers; receive = a_call; acknowledge = a_call }
    ∷ []

abbrev pub print : VideoDecodeAck nanos → List ℕ
print ack = codes "kind=video_ack"

abbrev pub print_pose : ℕ → List ℕ
print_pose sample = codes "pose"

pub two_rounds-IsEnough : All (IsEnoughRound 1) two_rounds
two_rounds-IsEnough = ((omega arith, omega arith), ((omega arith, omega arith), tt))

pub print_short : (ack : VideoDecodeAck nanos) → length (print ack) ≤ max_report_size
print_short ack = omega arith

pub print_pose_short : (sample : ℕ) → length (print_pose sample) ≤ max_report_size
print_pose_short sample = omega arith

receive_host_packets-Ends_example :
    Ends pipe tenths 1 (receive_host_packets pipe tenths print print_pose two_rounds client)
receive_host_packets-Ends_example =
    receive_host_packets-Ends pipe tenths print print_short print_pose 1 two_rounds client
      two_rounds-IsEnough
      (record { valid = fresh-IsValid tenths.initial; ordered = fresh-IsOrdered }, omega arith)

abbrev started_session : Session
started_session = record {
  session_state = idle;
  session_running = false;
  exit_render_loop = false;
  begun = 1;
  ended = 1;
}

abbrev session_events : List Event
session_events =
    state_changed ready true
    ∷ state_changed stopping true
    ∷ refresh_rate_changed
    ∷ state_changed ready true
    ∷ []

session_events-Allowed : AllAllowed session_events started_session
unfolding handle_event
session_events-Allowed = (refl, (refl, (tt, (refl, tt))))

run_round-IsPaired_example :
    IsPaired (run_round true session_events started_session).0
    × ((run_round true session_events started_session).1 ≡ true
        → (run_round true session_events started_session).0.begun
          ≡ (run_round true session_events started_session).0.ended + 1)
run_round-IsPaired_example =
    run_round-IsPaired true session_events started_session refl session_events-Allowed
