-- ===== src/Tests/Transfer.antt =====
-- Packets over the pipe.
use robo_vr.Base.{ℕ, ◌*◌, ◌≡◌, refl, List, [], ◌∷◌, ◌++◌, none, some, arith, pos, true, false, All}
use robo_vr.Base.Text.{codes}
use robo_vr.Protocol.Types.{PacketType, PacketHeader, make_packet_header, pack_header}
use robo_vr.Socket.Exact.{Write, read_exact, write_exact}
use robo_vr.Socket.Reading.{ReadInv, read_exact_lem}
use robo_vr.Socket.Writing.{WriteInv, write_exact_lem}
use robo_vr.Link.Packets.{packet, refuses, send_packet, receive_packet}
use robo_vr.Link.Framing.{ReceivedInv, receive_packet_lem}
use robo_vr.Link.Delivery.{wire, receive_packet-send_packet}
use robo_vr.Server.Defs.{
  Server, Packet, cut, refused, returned, client_loop, max_payload_size, start, stop, emit_status,
}
use robo_vr.Server.Stream.{IsSendable, IsQuiet, stream, client_loop-delivers, client_loop-refuses}
use robo_vr.Server.Sending.{
  Message, packets_from, send_all, AllSent, send_all_lem, packets_from-IsSendable,
}
use robo_vr.Server.Lifecycle.{IsValid, IsStarted, start-IsValid, stop_lem}
use robo_vr.Tests.Pipe.{Pipe, pipe, pipe-IsDelivering, send_pipe}

abbrev idle : Pipe
idle = record { coming = []; gone = []; interrupts = 2 }

abbrev greeting : List ℕ
greeting = codes "client=quest;protocol=1"

abbrev greeting_header : PacketHeader
greeting_header = make_packet_header PacketType.hello 1 (pos 5) 23

abbrev sent_greeting : Pipe
sent_greeting = record { coming = []; gone = wire greeting_header greeting; interrupts = 0 }

greeting_sent :
    send_packet pipe 200 idle PacketType.hello 1 (pos 5) greeting ≡ Write.done sent_greeting
unfolding send_packet write_exact make_packet_header pack_header send_pipe
greeting_sent = refl

abbrev arriving : Pipe
arriving = record { coming = wire greeting_header greeting ++ (9 ∷ []); gone = []; interrupts = 3 }

receive_packet-send_packet_example :
    (d' : Pipe) × (receive_packet pipe 64 200 arriving ≡ packet greeting_header greeting d')
    × (d'.coming ≡ 9 ∷ [])
receive_packet-send_packet_example =
    receive_packet-send_packet pipe pipe 64 200 200 idle sent_greeting arriving PacketType.hello 1
      (pos 5) greeting (9 ∷ []) pipe-IsDelivering (omega arith) (omega arith) (omega arith)
      (omega arith) (omega arith) (omega arith) refl greeting_sent refl

read_exact_lem_example : ReadInv pipe arriving 10 [] (read_exact pipe 20 arriving 10)
read_exact_lem_example = read_exact_lem pipe 20 arriving 10 (omega arith)

write_exact_lem_example : WriteInv pipe idle greeting (write_exact pipe 30 idle greeting)
write_exact_lem_example = write_exact_lem pipe 30 idle greeting (omega arith)

receive_packet_lem_example : ReceivedInv pipe 64 arriving (receive_packet pipe 64 200 arriving)
receive_packet_lem_example = receive_packet_lem pipe 64 200 arriving (omega arith)

abbrev Log : Type 0
Log = List (List ℕ)

abbrev note : List ℕ → Log → Log
note message messages = message ∷ messages

abbrev ignore : Packet → Server pipe Log → Server pipe Log
ignore p srv = srv

abbrev server_with : Pipe → Server pipe Log
server_with c = record {
  port = 7777;
  running = true;
  send_seq = 1;
  listen_fd = some 3;
  client_fd = some 4;
  worker = true;
  conn = λ _. c;
  closed = [];
  app = [];
}

ignore-IsQuiet : IsQuiet pipe note ignore 4
ignore-IsQuiet = record { keeps_inbound = λ p srv. refl; patience_le = λ p srv. omega arith }

abbrev two_messages : List Message
two_messages =
    record { type = PacketType.hello; now = pos 5; payload = greeting }
    ∷ record { type = PacketType.heartbeat; now = pos 9; payload = [] }
    ∷ []

abbrev two_packets : List Packet
two_packets = packets_from 1 two_messages

two_packets-IsSendable : All (IsSendable max_payload_size) two_packets
two_packets-IsSendable =
    packets_from-IsSendable max_payload_size 1 two_messages (omega arith) (omega arith)
      (omega arith)

abbrev two_coming : Pipe
two_coming = record { coming = stream two_packets ++ (1 ∷ 2 ∷ []); gone = []; interrupts = 1 }

client_loop-delivers_example :
    (srv' : Server pipe Log) × (client_loop pipe note ignore
        (true ∷ true ∷ true ∷ [])
        (20 * 1024 * 1024)
        4
        (server_with two_coming)
      ≡ returned cut two_packets srv')
client_loop-delivers_example =
    client_loop-delivers pipe note ignore 4 ignore-IsQuiet (20 * 1024 * 1024) two_packets []
      (server_with two_coming) (1 ∷ 2 ∷ []) pipe-IsDelivering two_packets-IsSendable refl
      (omega arith) (omega arith)

-- A packet of version 2.
abbrev bad_header : PacketHeader
bad_header = record {
  magic = 0x50543351;
  version = 2;
  type = 1;
  seq = 0;
  timestamp_ns = pos 0;
  payload_size = 0;
  crc32 = 0;
}

abbrev bad_coming : Pipe
bad_coming = record {
  coming = stream two_packets ++ (pack_header bad_header ++ (1 ∷ []));
  gone = [];
  interrupts = 1;
}

client_loop-refuses_example :
    (srv' : Server pipe Log) × (client_loop pipe note ignore
        (true ∷ true ∷ true ∷ [])
        (20 * 1024 * 1024)
        4
        (server_with bad_coming)
      ≡ returned refused two_packets (emit_status pipe note (codes "invalid packet header") srv'))
    × ((srv'.conn 4).coming ≡ 1 ∷ [])
unfolding refuses
client_loop-refuses_example =
    client_loop-refuses pipe note ignore 4 ignore-IsQuiet (20 * 1024 * 1024) two_packets []
      (server_with bad_coming) bad_header (1 ∷ []) pipe-IsDelivering two_packets-IsSendable
      (omega arith) refl refl (omega arith)

send_all_lem_example :
    AllSent pipe note 4
      (stream two_packets)
      3
      (server_with idle)
      (send_all pipe note 200 two_messages (server_with idle))
send_all_lem_example =
    send_all_lem pipe note 200 4 two_messages (server_with idle) refl (omega arith) (omega arith)

abbrev down : Server pipe Log
down = record (server_with idle) {
  running = false;
  listen_fd = none;
  client_fd = none;
  worker = false;
}

down-IsValid : IsValid pipe note down
down-IsValid = ground arith

up-IsValid : IsValid pipe note (server_with idle)
up-IsValid = ground arith

start-IsValid_example :
    IsValid pipe note (start pipe note (some 3) false true down).0
    × ((start pipe note (some 3) false true down).0.running
        ≡ (start pipe note (some 3) false true down).1)
    × IsStarted pipe note (some 3) down (start pipe note (some 3) false true down)
start-IsValid_example = start-IsValid pipe note (some 3) false true down down-IsValid

stop_lem_example :
    IsValid pipe note (stop pipe note (server_with idle))
    × ((stop pipe note (server_with idle)).running ≡ false)
    × ((stop pipe note (server_with idle)).closed ≡ 3 ∷ 4 ∷ [])
    × (stop pipe note (stop pipe note (server_with idle)) ≡ stop pipe note (server_with idle))
stop_lem_example = stop_lem pipe note (server_with idle) up-IsValid refl
