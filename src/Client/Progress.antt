-- ===== src/Client/Progress.antt =====
-- What a round of the transport thread keeps, whatever the host sends.
use robo_vr.Base.{
  ◌≤◌, ◌<◌, length, arith, All, ℕ, ◌+◌, ◌%◌, ◌^◌, ◌==◌, refl, if◌then◌else◌, Bool, true, false,
  List, [], ◌∷◌,
}
use robo_vr.Socket.Api.{Socket}
use robo_vr.Socket.Exact.{Write}
use robo_vr.Link.Packets.{Received, send_packet, receive_packet, packet, lost, invalid, stuck}
use robo_vr.Link.Framing.{ReceivedInv, receive_packet_lem}
use robo_vr.Link.Delivery.{wire, send_packet_lem}
use robo_vr.Socket.Writing.{WriteInv}
use robo_vr.Protocol.Types.{
  packet_header_size, make_packet_header, PacketType, video, stats, type_code,
}
use robo_vr.Video.Display.{Display, publish_stereo_clear_colors}
use robo_vr.Video.Decoder.State.{Millis, Decoder, VideoDecodeAck, take_acks}
use robo_vr.Video.Decoder.Decode.{Answers}
use robo_vr.Video.Decoder.Invariant.{IsValid-unmoved}
use robo_vr.Video.Router.{handle_payload}
use robo_vr.Client.Soundness.{IsSound, handle_payload-IsSound}
use robo_vr.Client.Transport.{
  StereoClearColors, apply_color_payload, Client, Call, Floats, max_host_payload_size,
  handle_video_payload, send_video_decode_acks, send_next, send_acks,
}
use robo_vr.Client.Loop.{Round, receive_host_packets}

-- The buffers of the client's texts have at most 4096 bytes.
abbrev pub max_report_size : ℕ
max_report_size = 4096

-- Fuel for a packet of the client on a connection that is interrupted at most `b` times.
abbrev pub IsEnough : ℕ → Call → Type 0
IsEnough b call = packet_header_size + max_report_size + b < call.fuel

-- Fuel for any packet of the host and for the acknowledgements behind it.
abbrev pub IsEnoughRound : ℕ → Round → Type 0
IsEnoughRound b r =
    (packet_header_size + max_host_payload_size + b < r.receive.fuel) × IsEnough b r.acknowledge

module _ (s : Socket) {f : Millis} (g : Floats) {P : Type 0} where
  -- The decoder of a client, with its display.
  abbrev pub IsSoundClient : Client s f g P → Type 0
  IsSoundClient c = IsSound c.decoder c.display

  -- A sound client on a connection that is interrupted at most `b` times from now on.
  abbrev pub Stands : ℕ → Client s f g P → Type 0
  Stands b c = IsSoundClient c × (s.patience c.conn ≤ b)

  -- A call returns; if it went through, the client stands, and if it gave up on the connection, the
  -- client is sound.
  abbrev pub Ends : ℕ → Write (Client s f g P) → Type 0
  Ends b (Write.done c) = Stands b c
  Ends b (Write.stop c) = IsSoundClient c
  Ends b Write.stuck = ⊥

  -- A call returns, and the client stands, whether or not it went through.
  abbrev pub Stays : ℕ → Write (Client s f g P) → Type 0
  Stays b (Write.done c) = Stands b c
  Stays b (Write.stop c) = Stands b c
  Stays b Write.stuck = ⊥

  pub Stays-Ends : (b : ℕ) (w : Write (Client s f g P)) → Stays b w → Ends b w
  Stays-Ends b (Write.done c) v = v
  Stays-Ends b (Write.stop c) v = v.0
  Stays-Ends b Write.stuck v = v

  pub send_next-Stays :
      (b : ℕ) (call : Call) (type : PacketType) (payload : List ℕ) (c : Client s f g P)
      → IsEnough b call
      → length payload ≤ max_report_size
      → Stands b c
      → Stays b (send_next s g call type payload c)
  unfolding send_next
  send_next-Stays b call type payload c enough short (v, p) =
      by_sent (send_packet s call.fuel c.conn type c.seq call.now payload) (
        send_packet_lem s call.fuel c.conn type c.seq call.now payload
          (omega (arith, enough, short, p)))
    where
      counted : Client s f g P
      counted = record c { seq = (c.seq + 1) % 2 ^ 64 }

      by_sent :
          (w : Write s.Conn)
          → WriteInv s c.conn
              (wire (make_packet_header type c.seq call.now (length payload)) payload)
              w
          → Stays b (elim w [
            | Write.done conn ↦ Write.done (record counted { conn = conn })
            | Write.stop conn ↦ Write.stop (record counted { conn = conn })
            | Write.stuck ↦ Write.stuck
          ])
      by_sent (Write.done conn) put = let q = put.patience_le in (v, omega (arith, q, p))
      by_sent (Write.stop conn) (front, back, e, l, put) =
          let q = put.patience_le in (v, omega (arith, q, p))
      by_sent Write.stuck h = h

module _ (s : Socket) {f : Millis} (g : Floats) {P : Type 0} (print : VideoDecodeAck f → List ℕ)
    (short : (ack : VideoDecodeAck f) → length (print ack) ≤ max_report_size) where
  abbrev Good : ℕ → Client s f g P → Type 0
  Good b c = Stands s g b c

  abbrev After : ℕ → Write (Client s f g P) → Type 0
  After b w = Ends s g b w

  send_acks-Ends :
      (b : ℕ) (call : Call) (acks : List (VideoDecodeAck f)) (c : Client s f g P)
      → IsEnough b call
      → Good b c
      → After b (send_acks s g print call acks c)
  unfolding send_acks
  send_acks-Ends b call [] c enough v = v
  send_acks-Ends b call (ack ∷ acks) c enough v =
      by_sent (send_next s g call stats (print ack) c)
        (send_next-Stays s g b call stats (print ack) c enough (short ack) v)
        (λ c' u. send_acks-Ends b call acks c' enough u)
    where
      by_sent :
          (w : Write (Client s f g P))
          → Stays s g b w
          → ((c' : Client s f g P) → Good b c' → After b (send_acks s g print call acks c'))
          → After b (elim w [
            | Write.done c' ↦ send_acks s g print call acks c'
            | Write.stop c' ↦ Write.stop c'
            | Write.stuck ↦ Write.stuck
          ])
      by_sent (Write.done c') u again = again c' u
      by_sent (Write.stop c') u again = u.0
      by_sent Write.stuck u again = u

  pub send_video_decode_acks-Ends :
      (b : ℕ) (call : Call) (c : Client s f g P)
      → IsEnough b call
      → Good b c
      → After b (send_video_decode_acks s g print call c)
  unfolding send_video_decode_acks take_acks
  send_video_decode_acks-Ends b call c enough (v, p) =
      send_acks-Ends b call c.decoder.pending_acks
        (record c { decoder = record c.decoder { pending_acks = [] } }) enough
        (
          record {
            valid = IsValid-unmoved c.decoder _ c.display c.display refl refl v.valid;
            ordered = record { none_before = λ _. refl; ascending = tt; published = tt };
          },
          p,
        )

  handle_video_payload-Stands :
      (b : ℕ) (a : Answers) (payload : List ℕ) (c : Client s f g P)
      → Good b c
      → Good b (handle_video_payload s g a payload c)
  unfolding handle_video_payload
  handle_video_payload-Stands b a payload c (v, p) =
      by_taken (handle_payload payload a c.decoder c.display)
        (handle_payload-IsSound payload a c.decoder c.display v)
    where
      by_taken :
          (x : Decoder f × Display (StereoClearColors g.Float) × Bool)
          → IsSound x.0 x.1
          → let handled : Client s f g P = record c { decoder = x.0; display = x.1 } in
            Good b (
              if x.2 then handled else record handled {
                display = publish_stereo_clear_colors (apply_color_payload g payload g.initial) x.1;
              })
      by_taken (d, t, true) w = (w, p)
      by_taken (d, t, false) w = (
        record {
          valid = IsValid-unmoved d d t _ refl (unfold publish_stereo_clear_colors in refl) w.valid;
          ordered = w.ordered;
        },
        p,
      )

  -- If the decoder is whole and its acknowledgements are in order, then `receiveHostPackets` returns
  -- and they still are, whatever the host sends and wherever the connection breaks. The fuel of each
  -- call is more than the bytes of the largest packet and the interruptions that the connection has
  -- left, and a text of the client has at most 4096 bytes.
  pub receive_host_packets-Ends :
      (print_pose : P → List ℕ) (b : ℕ) (rounds : List Round) (c : Client s f g P)
      → All (IsEnoughRound b) rounds
      → Good b c
      → After b (receive_host_packets s g print print_pose rounds c)
  unfolding receive_host_packets
  receive_host_packets-Ends print_pose b [] c enough v = v
  receive_host_packets-Ends print_pose b (r ∷ rounds) c ((enough, acks), later) (v, p) =
      by_received (receive_packet s max_host_payload_size r.receive.fuel c.conn)
        (receive_packet_lem s max_host_payload_size r.receive.fuel c.conn
          (omega (arith, enough, p)))
        (λ c' u. receive_host_packets-Ends print_pose b rounds c' later u)
    where
      next : Client s f g P → Write (Client s f g P)
      next c' = receive_host_packets s g print print_pose rounds c'

      Again : Type 0
      Again = (c' : Client s f g P) → Good b c' → After b (next c')

      by_acks :
          (w : Write (Client s f g P))
          → After b w
          → Again
          → After b (elim w [
            | Write.done c' ↦ next c'
            | Write.stop c' ↦ Write.stop c'
            | Write.stuck ↦ Write.stuck
          ])
      by_acks (Write.done c') u again = again c' u
      by_acks (Write.stop c') u again = u
      by_acks Write.stuck u again = u

      handled : List ℕ → s.Conn → Write (Client s f g P)
      handled payload conn =
          elim (send_video_decode_acks s g print r.acknowledge
            (handle_video_payload s g r.answers payload (record c { conn = conn }))) [
              | Write.done c' ↦ next c'
              | Write.stop c' ↦ Write.stop c'
              | Write.stuck ↦ Write.stuck
            ]

      by_type :
          (is_video : Bool) (payload : List ℕ) (conn : s.Conn)
          → s.patience conn ≤ b
          → Again
          → After b (elim is_video [
            | true ↦ handled payload conn
            | false ↦ next (record c { conn = conn })
          ])
      by_type true payload conn q again =
          by_acks _
            (send_video_decode_acks-Ends b r.acknowledge _ acks
              (handle_video_payload-Stands b r.answers payload (record c { conn = conn }) (v, q)))
            again
      by_type false payload conn q again = again (record c { conn = conn }) (v, q)

      by_received :
          (x : Received s.Conn)
          → ReceivedInv s max_host_payload_size c.conn x
          → Again
          → After b (elim x [
            | packet h payload conn ↦ elim (h.type == type_code video) [
              | true ↦ handled payload conn
              | false ↦ next (record c { conn = conn })
            ]
            | lost conn ↦ Write.stop (record c { conn = conn })
            | invalid h conn ↦ Write.stop (record c { conn = conn })
            | stuck ↦ Write.stuck
          ])
      by_received (packet h payload conn) (header_bytes, _, _, _, _, t) again =
          let q = t.patience_le in
          by_type (h.type == type_code video) payload conn (omega (arith, q, p)) again
      by_received (lost conn) t again = v
      by_received (invalid h conn) t again = v
      by_received stuck t again = t
