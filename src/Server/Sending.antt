-- ===== src/Server/Sending.antt =====
-- `TcpServer::send`. The calls of several threads exclude one another by `send_mutex_`, so any
-- interleaving of them is a sequence of whole calls.
use robo_vr.Base.{
  ℕ, ◌+◌, ◌%◌, ◌^◌, ◌≤◌, ◌<◌, ◌≡◌, refl, sym, ap, ◌∙◌, List, [], ◌∷◌, ◌++◌, some, length, arith,
  All, ==_refl, append_assoc, append-nil, ℤ, length-append,
}
use mathlib.Core.Path.{subst}
use robo_vr.Protocol.Wire.{IsI64}
use robo_vr.Protocol.Types.{PacketType, make_packet_header, packet_header_size}
use robo_vr.Protocol.RoundTrip.{make_packet_header-FitsHeader}
use robo_vr.Socket.Api.{Socket}
use robo_vr.Socket.Exact.{Write}
use robo_vr.Socket.Writing.{Put, Put-append, WriteInv}
use robo_vr.Link.Delivery.{wire, send_packet_lem, make_packet_header-IsAccepted}
use robo_vr.Server.Defs.{Server, Packet, put_conn, send}
use robo_vr.Server.Stream.{stream, IsSendable}

pub record Message : Type 0 where
  pub type : PacketType
  pub now : ℤ
  pub payload : List ℕ

-- The packets that the calls make, numbered from `seq` on.
abbrev pub packets_from : ℕ → List Message → List Packet
packets_from seq [] = []
packets_from seq (m ∷ ms) =
    (make_packet_header m.type seq m.now (length m.payload), m.payload) ∷ packets_from (seq + 1) ms

abbrev pub total_size : List Message → ℕ
total_size [] = 0
total_size (m ∷ ms) = packet_header_size + length m.payload + total_size ms

module _ (s : Socket) {A : Type 0} (on_status : List ℕ → A → A) where
  open s use {Conn, inbound, outbound, patience}

  -- One call after the other, up to the first that returns false.
  unfoldable pub send_all : ℕ → List Message → Server s A → Write (Server s A)
  send_all fuel [] srv = Write.done srv
  send_all fuel (m ∷ ms) srv = elim (send s on_status fuel m.type m.now m.payload srv) [
    | Write.done srv' ↦ send_all fuel ms srv'
    | Write.stop srv' ↦ Write.stop srv'
    | Write.stuck ↦ Write.stuck
  ]

  -- Outcomes of a call on the server with client `fd`.
  abbrev pub SendInv : ℕ → List ℕ → Server s A → Write (Server s A) → Type 0
  SendInv fd bytes srv (Write.done srv') =
      (srv'.client_fd ≡ some fd)
      × (srv'.send_seq ≡ (srv.send_seq + 1) % 2 ^ 64)
      × Put s (srv.conn fd) (srv'.conn fd) bytes
  SendInv fd bytes srv (Write.stop srv') =
      (srv'.send_seq ≡ (srv.send_seq + 1) % 2 ^ 64)
      × ((front : List ℕ) × (back : List ℕ) × (bytes ≡ front ++ back)
          × (1 ≤ length back)
          × Put s (srv.conn fd) (srv'.conn fd) front)
  SendInv fd bytes srv Write.stuck = ⊥

  -- With a client, a call that returns true has put one whole packet on the wire; one that returns
  -- false has put a proper leading part of it there; both have used up the sequence number.
  pub send_lem :
      (fuel fd : ℕ) (m : Message) (srv : Server s A)
      → srv.client_fd ≡ some fd
      → packet_header_size + length m.payload + patience (srv.conn fd) < fuel
      → SendInv fd
          (wire (make_packet_header m.type srv.send_seq m.now (length m.payload)) m.payload)
          srv
          (send s on_status fuel m.type m.now m.payload srv)
  unfolding send
  send_lem fuel fd m srv client f =
      rw (send, client)
        (sent_on _ (send_packet_lem s fuel (srv.conn fd) m.type srv.send_seq m.now m.payload f))
    where
      counted : Server s A
      counted = record srv { send_seq = (srv.send_seq + 1) % 2 ^ 64 }

      sent_on :
          (w : Write Conn)
          → WriteInv s
              (srv.conn fd)
              (wire (make_packet_header m.type srv.send_seq m.now (length m.payload)) m.payload)
              w
          → SendInv fd
              (wire (make_packet_header m.type srv.send_seq m.now (length m.payload)) m.payload)
              srv
              (elim w [
                | Write.done c' ↦ Write.done (put_conn s on_status fd c' counted)
                | Write.stop c' ↦ Write.stop (put_conn s on_status fd c' counted)
                | Write.stuck ↦ Write.stuck
              ])
      sent_on (Write.done c') put = (client, refl, rw (==_refl fd) put)
      sent_on (Write.stop c') (front, back, e, l, put) =
          (refl, (front, back, e, l, rw (==_refl fd) put))
      sent_on Write.stuck h = h

  abbrev pub AllSent : ℕ → List ℕ → ℕ → Server s A → Write (Server s A) → Type 0
  AllSent fd bytes seq srv (Write.done srv') =
      (srv'.client_fd ≡ some fd) × (srv'.send_seq ≡ seq) × Put s (srv.conn fd) (srv'.conn fd) bytes
  AllSent fd bytes seq srv (Write.stop srv') =
      (front : List ℕ) × (back : List ℕ) × (bytes ≡ front ++ back)
      × (1 ≤ length back)
      × Put s (srv.conn fd) (srv'.conn fd) front
  AllSent fd bytes seq srv Write.stuck = ⊥

  AllSent-grow :
      (fd : ℕ) (xs ys : List ℕ) (seq : ℕ) (srv srv' : Server s A) (w : Write (Server s A))
      → Put s (srv.conn fd) (srv'.conn fd) xs
      → AllSent fd ys seq srv' w
      → AllSent fd (xs ++ ys) seq srv w
  AllSent-grow fd xs ys seq srv srv' (Write.done srv'') p (c, n, q) = (c, n, Put-append s p q)
  AllSent-grow fd xs ys seq srv srv' (Write.stop srv'') p (front, back, e, l, q) =
      (xs ++ front, back, ap (◌++◌ xs) e ∙ sym (append_assoc xs front back), l, Put-append s p q)
  AllSent-grow fd xs ys seq srv srv' Write.stuck p h = h

  Put-refl : (c : Conn) → Put s c c []
  Put-refl c = record {
    appended = sym (append-nil (outbound c));
    same_inbound = refl;
    patience_le = omega arith;
  }

  module _ (fuel fd seq last : ℕ) (m : Message) (ms : List Message) (srv : Server s A)
      (numbered : srv.send_seq ≡ seq) (ends : seq + length (m ∷ ms) ≡ last) (small : last < 2 ^ 64)
      (rounds : total_size (m ∷ ms) + patience (srv.conn fd) < fuel)
      (ih : (srv' : Server s A)
        → srv'.client_fd ≡ some fd
        → srv'.send_seq ≡ seq + 1
        → total_size ms + patience (srv'.conn fd) < fuel
        → AllSent fd (stream (packets_from (seq + 1) ms)) last srv' (send_all fuel ms srv')) where
    after_first :
        (w : Write (Server s A))
        → SendInv fd (wire (make_packet_header m.type seq m.now (length m.payload)) m.payload) srv w
        → AllSent fd (stream (packets_from seq (m ∷ ms))) last srv (elim w [
          | Write.done srv' ↦ send_all fuel ms srv'
          | Write.stop srv' ↦ Write.stop srv'
          | Write.stuck ↦ Write.stuck
        ])
    after_first (Write.done srv') (c, n, put) =
        AllSent-grow fd _ _ last srv srv' _ put
          (ih srv' c (omega arith) (omega (arith, put.patience_le)))
    after_first (Write.stop srv') (n, (front, back, e, l, put)) =
        let later = stream (packets_from (seq + 1) ms) in
        (
          front,
          back ++ later,
          ap (λ x. x ++ later) e ∙ append_assoc front back later,
          omega (arith, length-append back later),
          put,
        )
    after_first Write.stuck h = h

  send_all_from :
      (fuel fd seq last : ℕ) (ms : List Message) (srv : Server s A)
      → srv.client_fd ≡ some fd
      → srv.send_seq ≡ seq
      → seq + length ms ≡ last
      → last < 2 ^ 64
      → total_size ms + patience (srv.conn fd) < fuel
      → AllSent fd (stream (packets_from seq ms)) last srv (send_all fuel ms srv)
  unfolding send_all
  send_all_from fuel fd seq last [] srv client n e small f =
      (client, omega arith, Put-refl (srv.conn fd))
  send_all_from fuel fd seq last (m ∷ ms) srv client n e small f =
      after_first fuel fd seq last m ms srv n e small f
        (λ srv' c n' f'. send_all_from fuel fd (seq + 1) last ms srv' c n' (omega arith) small f') _
        (subst
          (λ k.
            SendInv fd (wire (make_packet_header m.type k m.now (length m.payload)) m.payload) srv
              (send s on_status fuel m.type m.now m.payload srv))
          n (send_lem fuel fd m srv client (omega arith)))

  -- Any sequence of calls, from any threads: if all return true, the wire holds their packets whole,
  -- in the order of the calls, numbered consecutively from the server's counter on; if one returns
  -- false, the wire holds a proper leading part of that. The calls end.
  pub send_all_lem :
      (fuel fd : ℕ) (ms : List Message) (srv : Server s A)
      → srv.client_fd ≡ some fd
      → srv.send_seq + length ms < 2 ^ 64
      → total_size ms + patience (srv.conn fd) < fuel
      → AllSent fd
          (stream (packets_from srv.send_seq ms))
          (srv.send_seq + length ms)
          srv
          (send_all fuel ms srv)
  send_all_lem fuel fd ms srv client small f =
      send_all_from fuel fd srv.send_seq (srv.send_seq + length ms) ms srv client refl refl small f

-- Packets of messages within the receiver's limit are received as they were sent.
pub packets_from-IsSendable :
    (limit seq : ℕ) (ms : List Message)
    → All (λ (m : Message). (length m.payload ≤ limit) × IsI64 m.now) ms
    → seq + length ms < 2 ^ 64
    → limit < 2 ^ 32
    → All (IsSendable limit) (packets_from seq ms)
packets_from-IsSendable limit seq [] h small l = tt
packets_from-IsSendable limit seq (m ∷ ms) ((size, time), h) small l = (
  record {
    fits = make_packet_header-FitsHeader m.type seq m.now (length m.payload) (omega arith) time;
    accepted =
        make_packet_header-IsAccepted limit m.type seq m.now (length m.payload) (omega arith) size;
    sized = unfold make_packet_header in omega arith;
  },
  packets_from-IsSendable limit (seq + 1) ms h (omega arith) l,
)
