-- ===== src/Client/Loop.antt =====
-- `receiveHostPackets`, one round of the inner loop of `transportLoop`, and `startTransport` and
-- `stopTransport` of quest_client/app/src/main/cpp/native_main.cpp.
use robo_vr.Base.{
  ℕ, ◌==◌, if◌then◌else◌, true, false, List, [], ◌∷◌, none, some, ℤ, pos, ◌-ℤ◌, leb_ℤ,
}
use robo_vr.Base.Text.{codes}
use robo_vr.Protocol.Types.{video, heartbeat, pose, type_code}
use robo_vr.Socket.Api.{Socket}
use robo_vr.Socket.Exact.{Write}
use robo_vr.Link.Packets.{receive_packet, packet, lost, invalid, stuck}
use robo_vr.Video.Decoder.State.{Millis, VideoDecodeAck}
use robo_vr.Video.Decoder.Decode.{Answers}
use robo_vr.Client.Transport.{
  Client, Call, Floats, max_host_payload_size, handle_video_payload, send_video_decode_acks,
  send_next, take_latest_pose,
}

-- One round of `receiveHostPackets`: `hasReadableData` was true, and these are the answers in it. The
-- end of the list of rounds is a socket with nothing to read.
pub record Round : Type 0 where
  pub answers : Answers
  pub receive : Call
  pub acknowledge : Call

-- The clock of one round of the inner loop, and the answers of its calls.
pub record Tick : Type 0 where
  pub rounds : List Round
  pub acknowledge : Call
  pub now : ℤ
  pub beat : Call
  pub report : Call

module _ (s : Socket) {f : Millis} (g : Floats) {P : Type 0} (print : VideoDecodeAck f → List ℕ)
    (print_pose : P → List ℕ) where
  -- `stop` is false.
  unfoldable pub receive_host_packets : List Round → Client s f g P → Write (Client s f g P)
  unfolding handle_video_payload send_video_decode_acks
  receive_host_packets [] c = Write.done c
  receive_host_packets (r ∷ rounds) c =
      elim (receive_packet s max_host_payload_size r.receive.fuel c.conn) [
        | packet h payload conn ↦
            let received = record c { conn = conn } in
            elim (h.type == type_code video) [
              | true ↦
                  elim (send_video_decode_acks s g print r.acknowledge
                    (handle_video_payload s g r.answers payload received)) [
                      | Write.done c' ↦ receive_host_packets rounds c'
                      | Write.stop c' ↦ Write.stop c'
                      | Write.stuck ↦ Write.stuck
                    ]
              | false ↦ receive_host_packets rounds received
            ]
        | lost conn ↦ Write.stop (record c { conn = conn })
        | invalid h conn ↦ Write.stop (record c { conn = conn })
        | stuck ↦ Write.stuck
      ]

  -- `now - last_heartbeat >= std::chrono::milliseconds(500)`
  unfoldable pub send_heartbeat : ℤ → Tick → Client s f g P → Write (Client s f g P) × ℤ
  unfolding send_next
  send_heartbeat last_heartbeat t c =
      if leb_ℤ (pos 500_000_000) (t.now -ℤ last_heartbeat)
      then elim (send_next s g t.beat heartbeat (codes "quest_alive=1") c) [
        | Write.done c' ↦ (Write.done c', t.now)
        | Write.stop c' ↦ (Write.stop c', last_heartbeat)
        | Write.stuck ↦ (Write.stuck, last_heartbeat)
      ]
      else (Write.done c, last_heartbeat)

  unfoldable pub send_latest_pose : Tick → Client s f g P → Write (Client s f g P)
  unfolding take_latest_pose send_next
  send_latest_pose t c =
      let (latest, c') = take_latest_pose s g c in
      elim latest [
        | none ↦ Write.done c'
        | some sample ↦ send_next s g t.report pose (print_pose sample) c'
      ]

  -- `stop` is the `break`.
  unfoldable pub transport_round : ℤ → Tick → Client s f g P → Write (Client s f g P) × ℤ
  unfolding receive_host_packets send_video_decode_acks send_heartbeat send_latest_pose
  transport_round last_heartbeat t c = elim (receive_host_packets t.rounds c) [
    | Write.stop c₁ ↦ (Write.stop c₁, last_heartbeat)
    | Write.stuck ↦ (Write.stuck, last_heartbeat)
    | Write.done c₁ ↦ elim (send_video_decode_acks s g print t.acknowledge c₁) [
      | Write.stop c₂ ↦ (Write.stop c₂, last_heartbeat)
      | Write.stuck ↦ (Write.stuck, last_heartbeat)
      | Write.done c₂ ↦
          let (beaten, last) = send_heartbeat last_heartbeat t c₂ in
          elim beaten [
            | Write.stop c₃ ↦ (Write.stop c₃, last)
            | Write.stuck ↦ (Write.stuck, last)
            | Write.done c₃ ↦ (send_latest_pose t c₃, last)
          ]
    ]
  ]
