-- ===== src/Link/Packets.antt =====
-- `sendPacket` of quest_client/app/src/main/cpp/transport.cpp, and the reception of one packet, which
-- `TcpServer::clientLoop` of host_bridge/src/tcp_server.cpp and `receiveHostPackets` of
-- quest_client/app/src/main/cpp/native_main.cpp hold in the same words but for the size limit.
use robo_vr.Base.{ℕ, ◌==◌, ltb, if◌then◌else◌, Bool, not, List, [], length, ℤ, ◌||◌}
use robo_vr.Protocol.Types.{
  PacketType, PacketHeader, pack_header, unpack_header, make_packet_header, is_known_packet_type,
  protocol_magic, protocol_version, packet_header_size,
}
use robo_vr.Socket.Api.{Socket}
use robo_vr.Socket.Exact.{Read, Write, read_exact, write_exact}

-- The packet; `false` from a read; a header that is refused; fuel that ran out.
pub data Received (C : Type 0) : Type 0 where
  packet : PacketHeader → List ℕ → C → Received C
  lost : C → Received C
  invalid : PacketHeader → C → Received C
  stuck : Received C

-- The header tests, in the order of the source.
unfoldable pub refuses : ℕ → PacketHeader → Bool
refuses max_payload_size h =
    not (h.magic == protocol_magic)
    || not (h.version == protocol_version)
    || not (is_known_packet_type h.type)
    || ltb max_payload_size h.payload_size

module _ (s : Socket) where
  open s use {Conn}

  unfoldable pub send_packet : ℕ → Conn → PacketType → ℕ → ℤ → List ℕ → Write Conn
  send_packet fuel c type seq now payload =
      let header = make_packet_header type seq now (length payload) in
      elim (write_exact s fuel c (pack_header header)) [
        | Write.done c' ↦ write_exact s fuel c' payload
        | Write.stop c' ↦ Write.stop c'
        | Write.stuck ↦ Write.stuck
      ]

  -- `!payload.empty() && !readExact(…)`
  unfoldable pub receive_payload : ℕ → Conn → PacketHeader → Received Conn
  receive_payload fuel c h =
      if h.payload_size == 0 then packet h [] c else elim (read_exact s fuel c h.payload_size) [
        | Read.done payload c' ↦ packet h payload c'
        | Read.stop c' ↦ lost c'
        | Read.stuck ↦ stuck
      ]

  unfoldable pub receive_packet : ℕ → ℕ → Conn → Received Conn
  receive_packet max_payload_size fuel c = elim (read_exact s fuel c packet_header_size) [
    | Read.done header_bytes c' ↦
        let h = unpack_header header_bytes in
        if refuses max_payload_size h then invalid h c' else receive_payload fuel c' h
    | Read.stop c' ↦ lost c'
    | Read.stuck ↦ stuck
  ]
