-- ===== src/Client/Transport.antt =====
-- The functions of quest_client/app/src/main/cpp/native_main.cpp over the system's socket. The float
-- parser and the two printers of payloads are the C library's; the state that the thread shares with
-- others is a record.
use robo_vr.Base.{ℕ, ◌+◌, ◌*◌, ◌%◌, ◌^◌, if◌then◌else◌, List, [], ◌∷◌, Option, none, some, ℤ}
use robo_vr.Base.Text.{codes}
use robo_vr.Protocol.Types.{PacketType, stats}
use robo_vr.Protocol.KeyValue.Defs.{find_key_value}
use robo_vr.Socket.Api.{Socket}
use robo_vr.Socket.Exact.{Write}
use robo_vr.Link.Packets.{send_packet}
use robo_vr.Video.Display.{Display, publish_stereo_clear_colors}
use robo_vr.Video.Decoder.State.{Millis, Decoder, VideoDecodeAck, take_acks}
use robo_vr.Video.Decoder.Decode.{Answers}
use robo_vr.Video.Router.{handle_payload}

abbrev pub max_host_payload_size : ℕ
max_host_payload_size = 1024 * 1024

-- `StereoClearColors`, over the type of its floats.
pub record EyeColor (F : Type 0) : Type 0 where
  pub red : F
  pub green : F
  pub blue : F
  pub alpha : F

pub record StereoClearColors (F : Type 0) : Type 0 where
  pub left : EyeColor F
  pub right : EyeColor F

-- Its initial colours, `1.0f`, and `strtof` with the test that nothing was read.
pub record Floats : Type 1 where
  pub Float : Type 0
  pub one : Float
  pub initial : StereoClearColors Float
  pub strtof : List ℕ → Option Float

module _ (g : Floats) where
  open g use {Float}

  -- `parseFloatValue`
  unfoldable pub parse_float_value : List ℕ → Float → Float
  parse_float_value [] fallback = fallback
  parse_float_value (c ∷ cs) fallback = elim (g.strtof (c ∷ cs)) [
    | none ↦ fallback
    | some parsed ↦ parsed
  ]

  unfoldable pub payload_float : List ℕ → List ℕ → Float → Float
  unfolding parse_float_value
  payload_float payload key fallback = parse_float_value (find_key_value payload key) fallback

  unfoldable pub apply_color_payload : List ℕ → StereoClearColors Float → StereoClearColors Float
  unfolding payload_float
  apply_color_payload payload colors = record {
    left = record {
      red = payload_float payload (codes "left_r") colors.left.red;
      green = payload_float payload (codes "left_g") colors.left.green;
      blue = payload_float payload (codes "left_b") colors.left.blue;
      alpha = g.one;
    };
    right = record {
      red = payload_float payload (codes "right_r") colors.right.red;
      green = payload_float payload (codes "right_g") colors.right.green;
      blue = payload_float payload (codes "right_b") colors.right.blue;
      alpha = g.one;
    };
  }

-- What the transport thread keeps and shares: the connection, the number of the next packet, the
-- decoder, the renderer's globals, and the mailbox of the latest pose.
pub record Client (s : Socket) (f : Millis) (g : Floats) (P : Type 0) : Type 0 where
  pub conn : s.Conn
  pub seq : ℕ
  pub decoder : Decoder f
  pub display : Display (StereoClearColors g.Float)
  pub latest_pose : Option P

-- The system's answers of one call: the clock, and the fuel of the socket loops.
pub record Call : Type 0 where
  pub fuel : ℕ
  pub now : ℤ

module _ (s : Socket) {f : Millis} (g : Floats) {P : Type 0} where
  -- `publishHeadPose`, on the render thread: a pose that was not sent yet is replaced.
  unfoldable pub publish_head_pose : P → Client s f g P → Client s f g P
  publish_head_pose sample c = record c { latest_pose = some sample }

  unfoldable pub take_latest_pose : Client s f g P → Option P × Client s f g P
  take_latest_pose c = (c.latest_pose, record c { latest_pose = none })

  -- `robovr::sendPacket(fd, type, seq++, payload)` on 64 bits.
  unfoldable pub send_next : Call → PacketType → List ℕ → Client s f g P → Write (Client s f g P)
  unfolding send_packet
  send_next call type payload c =
      let counted = record c { seq = (c.seq + 1) % 2 ^ 64 } in
      elim (send_packet s call.fuel c.conn type c.seq call.now payload) [
        | Write.done conn ↦ Write.done (record counted { conn = conn })
        | Write.stop conn ↦ Write.stop (record counted { conn = conn })
        | Write.stuck ↦ Write.stuck
      ]

  -- The loop of `sendVideoDecodeAcks` over the acknowledgements taken; it ends at the first failure.
  unfoldable pub send_acks :
      (VideoDecodeAck f → List ℕ)
      → Call
      → List (VideoDecodeAck f)
      → Client s f g P
      → Write (Client s f g P)
  unfolding send_next
  send_acks print call [] c = Write.done c
  send_acks print call (ack ∷ acks) c = elim (send_next call stats (print ack) c) [
    | Write.done c' ↦ send_acks print call acks c'
    | Write.stop c' ↦ Write.stop c'
    | Write.stuck ↦ Write.stuck
  ]

  unfoldable pub send_video_decode_acks :
      (VideoDecodeAck f → List ℕ) → Call → Client s f g P → Write (Client s f g P)
  unfolding send_acks take_acks
  send_video_decode_acks print call c =
      let (acks, decoder) = take_acks c.decoder in
      send_acks print call acks (record c { decoder = decoder })

  -- A payload that the router does not take is read as colours.
  unfoldable pub handle_video_payload : Answers → List ℕ → Client s f g P → Client s f g P
  unfolding handle_payload apply_color_payload
  handle_video_payload a payload c =
      let (decoder, display, taken) = handle_payload payload a c.decoder c.display in
      let handled = record c { decoder = decoder; display = display } in
      if taken then handled else record handled {
        display = publish_stereo_clear_colors (apply_color_payload g payload g.initial) display;
      }
