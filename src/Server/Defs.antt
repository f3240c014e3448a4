-- ===== src/Server/Defs.antt =====
-- The class `TcpServer` of host_bridge/src/tcp_server.cpp. A descriptor of -1 is `none`; `conn` is the
-- system's connection behind a descriptor, and `closed` the descriptors that `closeFd` has closed,
-- newest first. The answers of the system, and what the other threads have made of `running_` when it
-- is read, are arguments. `app` is the state of the callbacks.
use robo_vr.Base.{
  ℕ, ◌+◌, ◌*◌, ◌%◌, ◌^◌, ◌==◌, if◌then◌else◌, Bool, true, false, List, [], ◌∷◌, Option, none, some,
  ℤ,
}
use robo_vr.Base.Text.{codes}
use robo_vr.Protocol.Types.{PacketType, PacketHeader}
use robo_vr.Socket.Api.{Socket}
use robo_vr.Socket.Exact.{Write}
use robo_vr.Link.Packets.{send_packet, receive_packet, packet, lost, invalid, stuck}

abbrev pub max_payload_size : ℕ
max_payload_size = 16 * 1024 * 1024

-- `ReceivedPacket`
abbrev pub Packet : Type 0
Packet = PacketHeader × List ℕ

pub record Server (s : Socket) (A : Type 0) : Type 0 where
  pub port : ℕ
  pub running : Bool
  pub send_seq : ℕ
  pub listen_fd : Option ℕ
  pub client_fd : Option ℕ
  pub worker : Bool
  pub conn : ℕ → s.Conn
  pub closed : List ℕ
  pub app : A

-- Why `clientLoop` returned, the packets that it handed to the callback, and the server then.
pub data End : Type 0 where
  stopped cut refused : End

pub data LoopEnd (S : Type 0) : Type 0 where
  returned : End → List Packet → S → LoopEnd S
  unfinished : LoopEnd S

abbrev pub heard : {S : Type 0} → Packet → LoopEnd S → LoopEnd S
heard p (returned e ps srv) = returned e (p ∷ ps) srv
heard p unfinished = unfinished

module _ (s : Socket) {A : Type 0} (on_status : List ℕ → A → A) where
  open s use {Conn}

  abbrev pub emit_status : List ℕ → Server s A → Server s A
  emit_status message srv = record srv { app = on_status message srv.app }

  abbrev pub put_conn : ℕ → Conn → Server s A → Server s A
  put_conn fd c srv = record srv { conn = λ n. if n == fd then c else srv.conn n }

  -- `closeFd` on the two fields that it is called on.
  unfoldable pub close_client : Server s A → Server s A
  close_client srv = elim srv.client_fd [
    | none ↦ srv
    | some fd ↦ record srv { client_fd = none; closed = fd ∷ srv.closed }
  ]

  unfoldable pub close_listen : Server s A → Server s A
  close_listen srv = elim srv.listen_fd [
    | none ↦ srv
    | some fd ↦ record srv { listen_fd = none; closed = fd ∷ srv.closed }
  ]

  -- `opened`, `bound`, `listens`: what `socket`, `bind` and `listen` answer.
  unfoldable pub start : Option ℕ → Bool → Bool → Server s A → Server s A × Bool
  unfolding close_listen
  start opened bound listens srv = if srv.running then (srv, true) else elim opened [
    | none ↦ (
      emit_status (codes "socket() failed") (record srv { running = false; listen_fd = none }),
      false,
    )
    | some fd ↦
        let open_server = record srv { running = true; listen_fd = some fd } in
        if bound
        then if listens
          then (emit_status (codes "listening") (record open_server { worker = true }), true)
          else (
            close_listen
                (emit_status (codes "listen() failed") (record open_server { running = false })),
            false,
          )
        else (
          close_listen
              (emit_status (codes "bind() failed") (record open_server { running = false })),
          false,
        )
  ]

  unfoldable pub stop : Server s A → Server s A
  unfolding close_client close_listen
  stop srv =
      if srv.running
      then record (close_listen (close_client (record srv { running = false }))) { worker = false }
      else srv

  -- `send_seq_` is an atomic `uint64_t`.
  unfoldable pub send : ℕ → PacketType → ℤ → List ℕ → Server s A → Write (Server s A)
  send fuel type now payload srv = elim srv.client_fd [
    | none ↦ Write.stop srv
    | some fd ↦
        let counted : Server s A = record srv { send_seq = (srv.send_seq + 1) % 2 ^ 64 } in
        elim (send_packet s fuel (srv.conn fd) type srv.send_seq now payload) [
          | Write.done c' ↦ Write.done (put_conn fd c' counted)
          | Write.stop c' ↦ Write.stop (put_conn fd c' counted)
          | Write.stuck ↦ Write.stuck
        ]
  ]

  -- The part of an `acceptLoop` round before `clientLoop`, for the descriptor that `accept` gave.
  unfoldable pub admit : ℕ → Conn → Server s A → Server s A
  unfolding close_client
  admit fd c srv =
      emit_status (codes "client connected")
        (record (put_conn fd c (close_client srv)) { client_fd = some fd })

  -- The part behind it.
  unfoldable pub dismiss : ℕ → Server s A → Server s A
  unfolding close_client
  dismiss fd srv =
      emit_status (codes "client disconnected")
        (elim srv.client_fd [ none ↦ srv | some fd' ↦ if fd' == fd then close_client srv else srv ])

  module _ (on_packet : Packet → Server s A → Server s A) where
    -- `flags`: what the successive reads of `running_` return.
    unfoldable pub client_loop : List Bool → ℕ → ℕ → Server s A → LoopEnd (Server s A)
    client_loop [] fuel fd srv = unfinished
    client_loop (false ∷ flags) fuel fd srv = returned stopped [] srv
    client_loop (true ∷ flags) fuel fd srv =
        elim (receive_packet s max_payload_size fuel (srv.conn fd)) [
          | packet h payload c' ↦
              heard (h, payload)
                (client_loop flags fuel fd (on_packet (h, payload) (put_conn fd c' srv)))
          | lost c' ↦ returned cut [] (put_conn fd c' srv)
          | invalid h c' ↦
              returned refused [] (emit_status (codes "invalid packet header") (put_conn fd c' srv))
          | stuck ↦ unfinished
        ]

    -- One round: `accept`, and for a failure the flag that is then read.
    unfoldable pub accept_round :
        Option (ℕ × Conn) → Bool → List Bool → ℕ → Server s A → Option (Server s A)
    unfolding admit dismiss client_loop
    accept_round none still flags fuel srv =
        some (if still then emit_status (codes "accept() failed") srv else srv)
    accept_round (some (fd, c)) still flags fuel srv =
        elim (client_loop flags fuel fd (admit fd c srv)) [
          | returned e ps srv' ↦ some (dismiss fd srv')
          | unfinished ↦ none
        ]
