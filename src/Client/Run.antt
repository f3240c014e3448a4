-- ===== src/Client/Run.antt =====
-- `connectTcp` of quest_client/app/src/main/cpp/transport.cpp, and `transportLoop`, `startTransport`
-- and `stopTransport` of native_main.cpp.
use robo_vr.Base.{
  ℕ, if◌then◌else◌, Bool, true, false, not, List, [], ◌∷◌, ◌++◌, Option, none, some, ℤ, pos, ◌-ℤ◌,
}
use robo_vr.Base.Text.{codes}
use robo_vr.Protocol.Types.{hello}
use robo_vr.Socket.Api.{Socket}
use robo_vr.Socket.Exact.{Write}
use robo_vr.Video.Decoder.State.{Millis, VideoDecodeAck}
use robo_vr.Client.Transport.{Client, Call, Floats, send_next}
use robo_vr.Client.Loop.{Tick, transport_round}

-- What `socket`, `inet_pton` and `connect` answer.
pub record ConnectAnswers : Type 0 where
  pub socket : Option ℕ
  pub is_address : Bool
  pub connected : Bool

-- The descriptor (`none`: -1), and the descriptors that were closed.
unfoldable pub connect_tcp : ConnectAnswers → Option ℕ × List ℕ
connect_tcp a = elim a.socket [
  | none ↦ (none, [])
  | some fd ↦
      if not a.is_address
      then (none, fd ∷ [])
      else if not a.connected
      then (none, fd ∷ [])
      else (some fd, [])
]

-- One round of the outer loop: what `connectTcp` meets, the connection behind the descriptor, the
-- time when it stands, and the rounds of the inner loop until `g_transport_running` is false.
pub record Attempt (s : Socket) : Type 0 where
  pub connect : ConnectAnswers
  pub conn : s.Conn
  pub greet : Call
  pub connected_at : ℤ
  pub ticks : List Tick

module _ (s : Socket) {f : Millis} (g : Floats) {P : Type 0} (print : VideoDecodeAck f → List ℕ)
    (print_pose : P → List ℕ) where
  -- The inner loop; it ends at a `break` or when it is told to. `none`: a call ran out of fuel.
  unfoldable pub inner_loop : ℤ → List Tick → Client s f g P → Option (Client s f g P)
  unfolding transport_round
  inner_loop last_heartbeat [] c = some c
  inner_loop last_heartbeat (t ∷ ticks) c =
      let (w, last) = transport_round s g print print_pose last_heartbeat t c in
      elim w [
        | Write.done c' ↦ inner_loop last ticks c'
        | Write.stop c' ↦ some c'
        | Write.stuck ↦ none
      ]

  -- The result of the hello is not looked at.
  unfoldable pub serve : Attempt s → Client s f g P → Option (Client s f g P)
  unfolding send_next inner_loop
  serve a c =
      elim (send_next s g a.greet hello (codes "client=quest;protocol=1")
        (record c { conn = a.conn })) [
          | Write.done c' ↦ inner_loop (a.connected_at -ℤ pos 1_000_000_000) a.ticks c'
          | Write.stop c' ↦ inner_loop (a.connected_at -ℤ pos 1_000_000_000) a.ticks c'
          | Write.stuck ↦ none
        ]

  -- The client, and the descriptors closed, newest first.
  unfoldable pub transport_loop :
      List (Attempt s) → Client s f g P → List ℕ → Option (Client s f g P × List ℕ)
  unfolding connect_tcp serve
  transport_loop [] c closed = some (c, closed)
  transport_loop (a ∷ attempts) c closed =
      let (descriptor, given_up) = connect_tcp a.connect in
      elim descriptor [
        | none ↦ transport_loop attempts c (given_up ++ closed)
        | some fd ↦ elim (serve a c) [
          | none ↦ none
          | some c' ↦ transport_loop attempts c' (fd ∷ given_up ++ closed)
        ]
      ]

-- `g_transport_running` and whether the thread runs.
pub record Thread : Type 0 where
  pub running : Bool
  pub joinable : Bool

unfoldable pub start_transport : Thread → Thread
start_transport t = if t.running then t else record { running = true; joinable = true }

unfoldable pub stop_transport : Thread → Thread
stop_transport t =
    if not t.running
    then t
    else record { running = false; joinable = if t.joinable then false else t.joinable }
