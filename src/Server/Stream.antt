-- ===== src/Server/Stream.antt =====
-- What `TcpServer::clientLoop` makes of the bytes that arrive.
use robo_vr.Base.{
  ℕ, ◌+◌, ◌≤◌, ◌<◌, ◌≡◌, refl, ap, ◌∙◌, Bool, true, List, [], ◌∷◌, ◌++◌, length, arith, All,
  ==_refl, append_assoc,
}
use robo_vr.Base.Text.{codes}
use robo_vr.Protocol.Types.{PacketHeader, FitsHeader, pack_header, packet_header_size}
use robo_vr.Socket.Api.{Socket}
use robo_vr.Socket.Reading.{IsDelivering, Took}
use robo_vr.Link.Packets.{packet, lost, invalid, refuses, receive_packet}
use robo_vr.Link.Framing.{IsAccepted}
use robo_vr.Link.Delivery.{
  wire, rest_after, receive_packet-wire, receive_packet-refused, receive_packet-short,
}
use robo_vr.Server.Defs.{
  Server, Packet, LoopEnd, End, cut, refused, returned, heard, client_loop, put_conn,
  max_payload_size, emit_status,
}

pub record IsSendable (m : ℕ) (p : Packet) : Type 0 where
  pub fits : FitsHeader p.0
  pub accepted : IsAccepted m p.0
  pub sized : length p.1 ≡ p.0.payload_size

-- The packets on the wire, one behind the other.
abbrev pub stream : List Packet → List ℕ
stream [] = []
stream ((h, payload) ∷ ps) = wire h payload ++ stream ps

abbrev pub heard_all : {S : Type 0} → List Packet → LoopEnd S → LoopEnd S
heard_all [] e = e
heard_all (p ∷ ps) e = heard p (heard_all ps e)

pub heard_all-returned :
    {S : Type 0} (ps : List Packet) (e : End) (srv : S)
    → heard_all ps (returned e [] srv) ≡ returned e ps srv
heard_all-returned [] e srv = refl
heard_all-returned (p ∷ ps) e srv = ap (heard p) (heard_all-returned ps e srv)

-- A `true` for each packet, and then what follows.
abbrev pub running_for : List Packet → List Bool → List Bool
running_for [] flags = flags
running_for (p ∷ ps) flags = true ∷ running_for ps flags

module _ (s : Socket) {A : Type 0} (on_status : List ℕ → A → A)
    (on_packet : Packet → Server s A → Server s A) (fd : ℕ) where
  open s use {Conn, inbound, patience}

  -- The callback may send on the connection, and takes nothing from its stream.
  pub record IsQuiet : Type 0 where
    pub keeps_inbound :
        (p : Packet) (srv : Server s A)
        → inbound ((on_packet p srv).conn fd) ≡ inbound (srv.conn fd)
    pub patience_le :
        (p : Packet) (srv : Server s A)
        → patience ((on_packet p srv).conn fd) ≤ patience (srv.conn fd)

  put_conn_self : (c : Conn) (srv : Server s A) → (put_conn s on_status fd c srv).conn fd ≡ c
  put_conn_self c srv = rw (==_refl fd)

  module _ (fuel : ℕ) (flags : List Bool) (srv : Server s A) where
    loop_packet :
        {h : PacketHeader} {payload : List ℕ} {c' : Conn}
        → receive_packet s max_payload_size fuel (srv.conn fd) ≡ packet h payload c'
        → client_loop s on_status on_packet (true ∷ flags) fuel fd srv
          ≡ heard
              (h, payload)
              (client_loop s on_status on_packet flags fuel fd
                (on_packet (h, payload) (put_conn s on_status fd c' srv)))
    unfolding client_loop
    loop_packet e = rw (e, client_loop)

    loop_lost :
        {c' : Conn}
        → receive_packet s max_payload_size fuel (srv.conn fd) ≡ lost c'
        → client_loop s on_status on_packet (true ∷ flags) fuel fd srv
          ≡ returned cut [] (put_conn s on_status fd c' srv)
    unfolding client_loop
    loop_lost e = rw (e, client_loop)

    loop_invalid :
        {h : PacketHeader} {c' : Conn}
        → receive_packet s max_payload_size fuel (srv.conn fd) ≡ invalid h c'
        → client_loop s on_status on_packet (true ∷ flags) fuel fd srv
          ≡ returned refused [] (
              emit_status s on_status
                (codes "invalid packet header")
                (put_conn s on_status fd c' srv))
    unfolding client_loop
    loop_invalid e = rw (e, client_loop)

  module _ (quiet : IsQuiet) (fuel : ℕ) where
    -- The server behind one packet of the stream.
    after_packet :
        (p : Packet) (c' : Conn) (srv : Server s A) (front rest : List ℕ)
        → Took s (srv.conn fd) c' front
        → inbound (srv.conn fd) ≡ front ++ rest
        → (inbound ((on_packet p (put_conn s on_status fd c' srv)).conn fd) ≡ rest)
          × (patience ((on_packet p (put_conn s on_status fd c' srv)).conn fd)
              ≤ patience (srv.conn fd))
    after_packet p c' srv front rest t e =
        let srv' = put_conn s on_status fd c' srv in
        let same = put_conn_self c' srv in
        (
          quiet.keeps_inbound p srv' ∙ ap inbound same ∙ rest_after s t e,
          omega (arith, quiet.patience_le p srv', ap patience same, t.patience_le),
        )

    -- The rounds for the packets at the front of a stream.
    client_loop-stream :
        (ps : List Packet) (flags : List Bool) (srv : Server s A) (rest : List ℕ)
        → IsDelivering s
        → All (IsSendable max_payload_size) ps
        → inbound (srv.conn fd) ≡ stream ps ++ rest
        → packet_header_size + max_payload_size + patience (srv.conn fd) < fuel
        → (srv' : Server s A) × (client_loop s on_status on_packet
              (running_for ps flags)
              fuel
              fd
              srv
            ≡ heard_all ps (client_loop s on_status on_packet flags fuel fd srv'))
          × (inbound (srv'.conn fd) ≡ rest)
          × (patience (srv'.conn fd) ≤ patience (srv.conn fd))
    client_loop-stream [] flags srv rest d h e f = (srv, refl, e, omega arith)
    client_loop-stream ((hd, payload) ∷ ps) flags srv rest d (ok, oks) e f =
        let e₁ = e ∙ append_assoc (wire hd payload) (stream ps) rest in
        let (c', r, t) =
          receive_packet-wire s max_payload_size fuel (srv.conn fd) hd payload (stream ps ++ rest) d
            ok.fits ok.accepted ok.sized e₁ f in
        let srv₁ = on_packet (hd, payload) (put_conn s on_status fd c' srv) in
        let (i, q) = after_packet (hd, payload) c' srv (wire hd payload) (stream ps ++ rest) t e₁ in
        let (srv', g, i', q') = client_loop-stream ps flags srv₁ rest d oks i (omega arith) in
        (
          srv',
          loop_packet fuel (running_for ps flags) srv r ∙ ap (heard (hd, payload)) g,
          i',
          omega arith,
        )

    -- A stream of packets that then ends, within a header at most, while the server runs: the callback
    -- gets exactly these packets, in order, and the loop returns.
    pub client_loop-delivers :
        (ps : List Packet) (flags : List Bool) (srv : Server s A) (rest : List ℕ)
        → IsDelivering s
        → All (IsSendable max_payload_size) ps
        → inbound (srv.conn fd) ≡ stream ps ++ rest
        → length rest < packet_header_size
        → packet_header_size + max_payload_size + patience (srv.conn fd) < fuel
        → (srv' : Server s A) × (client_loop s on_status on_packet
              (running_for ps (true ∷ flags))
              fuel
              fd
              srv
            ≡ returned cut ps srv')
    client_loop-delivers ps flags srv rest d h e few f =
        let (srv₁, g, i, q) = client_loop-stream ps (true ∷ flags) srv rest d h e f in
        let (c', r) =
          receive_packet-short s max_payload_size fuel (srv₁.conn fd) (omega (arith, ap length i))
            (omega arith) in
        (
          put_conn s on_status fd c' srv₁,
          g ∙ ap (heard_all ps) (loop_lost fuel flags srv₁ r) ∙ heard_all-returned ps cut _,
        )

    -- A header that fails a test, behind any packets: the packets before it are handed on, nothing
    -- behind it is, and the status callback hears of it.
    pub client_loop-refuses :
        (ps : List Packet) (flags : List Bool) (srv : Server s A) (h : PacketHeader) (rest : List ℕ)
        → IsDelivering s
        → All (IsSendable max_payload_size) ps
        → FitsHeader h
        → refuses max_payload_size h ≡ true
        → inbound (srv.conn fd) ≡ stream ps ++ (pack_header h ++ rest)
        → packet_header_size + max_payload_size + patience (srv.conn fd) < fuel
        → (srv' : Server s A) × (client_loop s on_status on_packet
              (running_for ps (true ∷ flags))
              fuel
              fd
              srv
            ≡ returned refused ps (emit_status s on_status (codes "invalid packet header") srv'))
          × (inbound (srv'.conn fd) ≡ rest)
    client_loop-refuses ps flags srv h rest d hs fits bad e f =
        let (srv₁, g, i, q) =
          client_loop-stream ps (true ∷ flags) srv (pack_header h ++ rest) d hs e f in
        let (c', r, t) =
          receive_packet-refused s max_payload_size fuel (srv₁.conn fd) h rest d fits bad i
            (omega arith) in
        (
          put_conn s on_status fd c' srv₁,
          g ∙ ap (heard_all ps) (loop_invalid fuel flags srv₁ r) ∙ heard_all-returned ps refused _,
          ap inbound (put_conn_self c' srv₁) ∙ rest_after s t i,
        )
