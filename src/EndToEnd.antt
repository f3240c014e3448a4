-- ===== src/EndToEnd.antt =====
-- A pose that the host answers, from the packet callback of host_bridge/tools/host_bridge_demo.cpp to
-- what the client's renderer draws.
use robo_vr.Base.{
  ℕ, ◌+◌, ◌%◌, ◌^◌, ◌<◌, ◌≡◌, refl, ap, ◌∙◌, ◌==◌, if◌then◌else◌, Bool, true, false, not, ◌&&◌,
  List, [], ◌∷◌, ◌++◌, some, length, length-append, arith, ℤ,
}
use robo_vr.Protocol.Wire.{IsI64}
use robo_vr.Protocol.Types.{
  PacketHeader, video, type_code, make_packet_header, packet_header_size, pack_video_frame_header,
}
use robo_vr.Protocol.RoundTrip.{length-pack_video_frame_header}
use robo_vr.Socket.Api.{Socket}
use robo_vr.Socket.Reading.{IsDelivering}
use robo_vr.Socket.Exact.{Write}
use robo_vr.Link.Packets.{Received, send_packet, receive_packet, packet, lost, invalid, stuck}
use robo_vr.Link.Delivery.{receive_packet-send_packet}
use robo_vr.Video.Display.{
  StereoVideoFrame, Display, publish_stereo_video_frame, publish_stereo_clear_colors,
}
use robo_vr.Video.Decoder.State.{Millis, Decoder, VideoDecodeAck, take_acks}
use robo_vr.Host.Payloads.{pattern_side, fill_eye, pattern_header, make_video_test_pattern_payload}
use robo_vr.Host.Delivery.{length-fill_eye, handle_payload-make_video_test_pattern_payload}
use robo_vr.Host.Callback.{Bridge, Sent, on_pose}
use robo_vr.Client.Transport.{
  Client, Floats, StereoClearColors, apply_color_payload, max_host_payload_size,
  handle_video_payload, send_video_decode_acks, send_acks,
}
use robo_vr.Client.Loop.{Round, receive_host_packets}

-- The frame that the client makes of the test pattern.
abbrev pub pattern_frame : ℕ → StereoVideoFrame
pattern_frame frame_index = record {
  frame_index = frame_index % 2 ^ 32;
  width = pattern_side;
  height = pattern_side;
  left_rgba = fill_eye frame_index 0;
  right_rgba = fill_eye frame_index 1;
}

pub pattern_length :
    (frame_index : ℕ) (now : ℤ) → length (make_video_test_pattern_payload frame_index now) ≡ 131112
unfolding make_video_test_pattern_payload
pattern_length frame_index now = omega (
  arith,
  length-append (pack_video_frame_header (pattern_header frame_index now))
      (fill_eye frame_index 0 ++ fill_eye frame_index 1),
  length-append (fill_eye frame_index 0) (fill_eye frame_index 1),
  length-pack_video_frame_header (pattern_header frame_index now),
  length-fill_eye frame_index 0,
  length-fill_eye frame_index 1,
)

on_pose-tenth :
    {f : Millis} (now : ℤ) (host : Bridge f)
    → (host.pose_count + 1) % 2 ^ 64 % 10 ≡ 1
    → (on_pose false now host).1
      ≡ (video, make_video_test_pattern_payload host.video_frame now) ∷ []
unfolding on_pose
on_pose-tenth {f} now host e =
    ap (λ b. (if◌then◌else◌ {A = Bridge f × Sent} b sent quiet).1) is_tenth
  where
    count : ℕ
    count = (host.pose_count + 1) % 2 ^ 64

    is_tenth : (not false && count % 10 == 1) ≡ true
    is_tenth = ground (arith, e)

    sent : Bridge f × Sent
    sent = (
      record host { pose_count = count; video_frame = (host.video_frame + 1) % 2 ^ 64 },
      (video, make_video_test_pattern_payload host.video_frame now) ∷ [],
    )

    quiet : Bridge f × Sent
    quiet = (record host { pose_count = count }, [])

module _ (s : Socket) {f : Millis} (g : Floats) {P : Type 0} (print : VideoDecodeAck f → List ℕ)
    (print_pose : P → List ℕ) where
  -- A packet with the test pattern publishes its frame.
  receive_host_packets-pattern :
      (r : Round) (c : Client s f g P) (conn : s.Conn) (frame_index : ℕ) (time : ℤ)
      (header : PacketHeader)
      → frame_index < 2 ^ 64
      → IsI64 time
      → c.decoder.pending_acks ≡ []
      → header.type ≡ type_code video
      → receive_packet s max_host_payload_size r.receive.fuel c.conn
        ≡ packet header (make_video_test_pattern_payload frame_index time) conn
      → (c' : Client s f g P) × (receive_host_packets s g print print_pose (r ∷ []) c
          ≡ Write.done c')
        × (c'.display.stereo_frame ≡ some (pattern_frame frame_index))
        × (c'.conn ≡ conn)
  unfolding receive_host_packets handle_video_payload send_video_decode_acks take_acks send_acks
      publish_stereo_video_frame
  receive_host_packets-pattern r c conn frame_index time header small real quiet is_video received =
      (
        final,
        ap on_received received
            ∙ ap on_type typed
            ∙ ap (λ x. on_acks (send_video_decode_acks s g print r.acknowledge x)) handled
            ∙ ap on_acks acknowledged,
        refl,
        refl,
      )
    where
      payload : List ℕ
      payload = make_video_test_pattern_payload frame_index time

      with_conn : Client s f g P
      with_conn = record c { conn = conn }

      from_router : Decoder f × Display (StereoClearColors g.Float) × Bool → Client s f g P
      from_router (decoder, display, taken) =
          let handled = record with_conn { decoder = decoder; display = display } in
          if taken then handled else record handled {
            display = publish_stereo_clear_colors (apply_color_payload g payload g.initial) display;
          }

      shown : Client s f g P
      shown = record with_conn {
        display = publish_stereo_video_frame (pattern_frame frame_index) c.display;
      }

      final : Client s f g P
      final = record shown { decoder = record c.decoder { pending_acks = [] } }

      handled : handle_video_payload s g r.answers payload with_conn ≡ shown
      handled = ap from_router (
          handle_payload-make_video_test_pattern_payload frame_index time r.answers c.decoder
            c.display small real)

      acknowledged : send_video_decode_acks s g print r.acknowledge shown ≡ Write.done final
      acknowledged = ap (λ acks. send_acks s g print r.acknowledge acks final) quiet

      on_acks : Write (Client s f g P) → Write (Client s f g P)
      on_acks w = elim w [
        | Write.done c' ↦ Write.done c'
        | Write.stop c' ↦ Write.stop c'
        | Write.stuck ↦ Write.stuck
      ]

      on_type : Bool → Write (Client s f g P)
      on_type b = elim b [
        | true ↦ on_acks (
            send_video_decode_acks s g print r.acknowledge
              (handle_video_payload s g r.answers payload with_conn))
        | false ↦ Write.done with_conn
      ]

      typed : (header.type == type_code video) ≡ true
      typed = ground (arith, is_video)

      on_received : Received s.Conn → Write (Client s f g P)
      on_received x = elim x [
        | packet h bytes conn' ↦
            let with_other : Client s f g P = record c { conn = conn' } in
            elim (h.type == type_code video) [
              | true ↦ on_acks (
                  send_video_decode_acks s g print r.acknowledge
                    (handle_video_payload s g r.answers bytes with_other))
              | false ↦ Write.done with_other
            ]
        | lost conn' ↦ Write.stop (record c { conn = conn' })
        | invalid h conn' ↦ Write.stop (record c { conn = conn' })
        | stuck ↦ Write.stuck
      ]

-- What becomes of a pose that the host answers. With no H.264 stream, the first pose and every tenth
-- after it makes the callback hand one frame of the test pattern to `send`. Once `sendPacket` has
-- reported this frame as sent on a connection with nothing else on it, the client's
-- `receiveHostPackets`, with enough fuel and no acknowledgement waiting, publishes the frame with the
-- pixels that the host drew for each eye, and the bytes behind it are still to be read.
pub pose_frame_published :
    (a b : Socket) {f : Millis} (g : Floats) {P : Type 0}
    → (print : VideoDecodeAck f → List ℕ) (print_pose : P → List ℕ) (host : Bridge f)
    → (time now : ℤ) (seq fuel : ℕ) (up up' : Socket.Conn a) (r : Round) (c : Client b f g P)
    → (rest : List ℕ) → IsDelivering b
    → (host.pose_count + 1) % 2 ^ 64 % 10 ≡ 1
    → host.video_frame < 2 ^ 64
    → IsI64 time
    → seq < 2 ^ 64
    → IsI64 now
    → packet_header_size + 131112 + Socket.patience a up < fuel
    → packet_header_size + max_host_payload_size + Socket.patience b c.conn < r.receive.fuel
    → Socket.outbound a up ≡ []
    → send_packet a fuel up video seq now (make_video_test_pattern_payload host.video_frame time)
      ≡ Write.done up'
    → Socket.inbound b c.conn ≡ Socket.outbound a up' ++ rest
    → c.decoder.pending_acks ≡ []
    → ((on_pose false time host).1
        ≡ (video, make_video_test_pattern_payload host.video_frame time) ∷ [])
      × ((c' : Client b f g P) × (receive_host_packets b g print print_pose (r ∷ []) c
            ≡ Write.done c')
          × (c'.display.stereo_frame ≡ some (pattern_frame host.video_frame))
          × (Socket.inbound b c'.conn ≡ rest))
unfolding make_packet_header
pose_frame_published a b g print print_pose host time now seq fuel up up' r c rest delivering tenth
      small real numbered dated enough enough' fresh done there quiet =
    let payload = make_video_test_pattern_payload host.video_frame time in
    let size : length payload ≡ 131112 = pattern_length host.video_frame time in
    let (conn, received, left) =
      receive_packet-send_packet a b max_host_payload_size fuel r.receive.fuel up up' c.conn video
        seq now payload rest delivering numbered dated (omega (arith, size)) (omega arith)
        (omega (arith, size, enough)) enough' fresh done there in
    let (c', ended, published, same) =
      receive_host_packets-pattern b g print print_pose r c conn host.video_frame time
        (make_packet_header video seq now (length payload)) small real quiet refl received in
    (on_pose-tenth time host tenth, (c', ended, published, ap (Socket.inbound b) same ∙ left))
