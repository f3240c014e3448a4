-- ===== src/Link/Delivery.antt =====
-- From the sender's `sendPacket` over the wire to the receiver.
use robo_vr.Base.{
  ℕ, ◌+◌, ◌^◌, ◌≤◌, ◌<◌, ◌≡◌, refl, sym, ap, ◌∙◌, true, false, List, [], ◌∷◌, ◌++◌, length, arith,
  append_assoc, append-nil, length-append, ℤ, ◌==◌,
}
use robo_vr.Protocol.Wire.{IsI64}
use robo_vr.Protocol.Types.{
  PacketType, PacketHeader, FitsHeader, pack_header, unpack_header, make_packet_header,
  packet_header_size,
}
use robo_vr.Protocol.RoundTrip.{
  unpack_header-pack_header, length-pack_header, make_packet_header-FitsHeader,
}
use robo_vr.Socket.Api.{Socket}
use robo_vr.Socket.Exact.{Read, Write, read_exact, write_exact}
use robo_vr.Socket.Reading.{
  IsDelivering, Took, Took-append, Took-refl, ReadInv, read_exact_lem, read_exact_delivers,
  Delivered,
}
use mathlib.Core.List.{append_cancel_left}
use robo_vr.Socket.Writing.{Put, WriteInv, WriteInv-grow, write_exact_lem}
use robo_vr.Link.Packets.{
  packet, lost, invalid, refuses, send_packet, receive_payload, receive_packet,
}
use robo_vr.Link.Framing.{IsAccepted, refuses-false}

-- A packet on the wire: the packed header, then the payload.
abbrev pub wire : PacketHeader → List ℕ → List ℕ
wire h payload = pack_header h ++ payload

pub unpack-pack : (h : PacketHeader) → FitsHeader h → unpack_header (pack_header h) ≡ h
unpack-pack h fits = rw append-nil at (unpack_header-pack_header h [] fits)

-- The header that `makePacketHeader` builds passes the receiver's tests, up to the payload's size.
pub make_packet_header-IsAccepted :
    (m : ℕ) (type : PacketType) (seq : ℕ) (now : ℤ) (size : ℕ)
    → size < 2 ^ 32
    → size ≤ m
    → IsAccepted m (make_packet_header type seq now size)
unfolding make_packet_header
make_packet_header-IsAccepted m PacketType.hello seq now size h k = record {
  has_magic = refl;
  has_version = refl;
  type_min = omega arith;
  type_max = omega arith;
  size_max = omega arith;
}
make_packet_header-IsAccepted m _ seq now size h k = record {
  has_magic = refl;
  has_version = refl;
  type_min = omega arith;
  type_max = omega arith;
  size_max = omega arith;
}

module _ (s : Socket) where
  open s use {Conn, inbound, outbound, patience}

  header-Delivered :
      (fuel : ℕ) (c : Conn) (h : PacketHeader) (rest : List ℕ)
      → IsDelivering s
      → inbound c ≡ pack_header h ++ rest
      → packet_header_size + patience c < fuel
      → Delivered s c (pack_header h) (read_exact s fuel c packet_header_size)
  header-Delivered fuel c h rest d e f =
      rw (length-pack_header h) at (
        read_exact_delivers s fuel c (pack_header h) rest d e (omega (arith, length-pack_header h)))

  pub rest_after :
      {c c' : Conn} {front rest : List ℕ}
      → Took s c c' front
      → inbound c ≡ front ++ rest
      → inbound c' ≡ rest
  rest_after {front} t e = append_cancel_left front _ _ (sym t.consumed ∙ e)

  payload_delivered :
      (fuel : ℕ) (c : Conn) (h : PacketHeader) (payload rest : List ℕ)
      → IsDelivering s
      → length payload ≡ h.payload_size
      → inbound c ≡ payload ++ rest
      → length payload + patience c < fuel
      → (c' : Conn) × (receive_payload s fuel c h ≡ packet h payload c') × Took s c c' payload
  unfolding receive_payload
  payload_delivered fuel c h [] rest d l e f =
      let zero_size : (h.payload_size == 0) ≡ true = ground arith in
      (c, rw (zero_size, receive_payload), Took-refl s c)
  payload_delivered fuel c h (x ∷ xs) rest d l e f =
      let some_size : (h.payload_size == 0) ≡ false = ground arith in
      let (c', r, t) = read_exact_delivers s fuel c (x ∷ xs) rest d e f in
      (c', rw (some_size, receive_payload, ap (λ n. read_exact s fuel c n) (sym l) ∙ r), t)

  -- An accepted packet on the wire is received as it was sent, and the stream goes on behind it.
  pub receive_packet-wire :
      (m fuel : ℕ) (c : Conn) (h : PacketHeader) (payload rest : List ℕ)
      → IsDelivering s
      → FitsHeader h
      → IsAccepted m h
      → length payload ≡ h.payload_size
      → inbound c ≡ wire h payload ++ rest
      → packet_header_size + m + patience c < fuel
      → (c' : Conn) × (receive_packet s m fuel c ≡ packet h payload c')
        × Took s c c' (wire h payload)
  unfolding receive_packet
  receive_packet-wire m fuel c h payload rest d fits a l e f =
      let e₁ : inbound c ≡ pack_header h ++ (payload ++ rest) =
        e ∙ append_assoc (pack_header h) payload rest in
      let (c₁, r₁, t₁) = header-Delivered fuel c h (payload ++ rest) d e₁ (omega arith) in
      let (c₂, r₂, t₂) =
        payload_delivered fuel c₁ h payload rest d l (rest_after t₁ e₁)
          (omega (arith, t₁.patience_le, a.size_max)) in
      (c₂, rw (receive_packet, r₁, unpack-pack h fits, refuses-false m h a) r₂, Took-append s t₁ t₂)

  -- A refused header on the wire ends the reception right behind it.
  pub receive_packet-refused :
      (m fuel : ℕ) (c : Conn) (h : PacketHeader) (rest : List ℕ)
      → IsDelivering s
      → FitsHeader h
      → refuses m h ≡ true
      → inbound c ≡ pack_header h ++ rest
      → packet_header_size + patience c < fuel
      → (c' : Conn) × (receive_packet s m fuel c ≡ invalid h c') × Took s c c' (pack_header h)
  unfolding receive_packet
  receive_packet-refused m fuel c h rest d fits bad e f =
      let (c₁, r₁, t₁) = header-Delivered fuel c h rest d e f in
      (c₁, rw (receive_packet, r₁, unpack-pack h fits, bad) refl, t₁)

  -- With fewer bytes left than a header has, and the stream at its end, the reception fails.
  pub receive_packet-short :
      (m fuel : ℕ) (c : Conn)
      → length (inbound c) < packet_header_size
      → packet_header_size + patience c < fuel
      → (c' : Conn) × (receive_packet s m fuel c ≡ lost c')
  unfolding receive_packet
  receive_packet-short m fuel c few f =
      let (c', e) = no_header _ (read_exact_lem s fuel c packet_header_size f) in
      (c', rw (receive_packet, e))
    where
      no_header :
          (r : Read Conn) → ReadInv s c packet_header_size [] r → (c' : Conn) × (r ≡ Read.stop c')
      no_header (Read.done bs c') (chunk, e, l, t) =
          absurd
            (omega (arith, ap length e, ap length t.consumed, length-append chunk (inbound c')))
      no_header (Read.stop c') h = (c', refl)
      no_header Read.stuck h = absurd h

  -- `sendPacket` puts the packet of `makePacketHeader` on the wire; if it returns false, a proper
  -- leading part of it.
  pub send_packet_lem :
      (fuel : ℕ) (c : Conn) (type : PacketType) (seq : ℕ) (now : ℤ) (payload : List ℕ)
      → packet_header_size + length payload + patience c < fuel
      → WriteInv s c
          (wire (make_packet_header type seq now (length payload)) payload)
          (send_packet s fuel c type seq now payload)
  unfolding send_packet
  send_packet_lem fuel c type seq now payload f =
      header_sent _
        (write_exact_lem s fuel c (pack_header header) (omega (arith, length-pack_header header)))
    where
      header : PacketHeader
      header = make_packet_header type seq now (length payload)

      header_sent :
          (w : Write Conn)
          → WriteInv s c (pack_header header) w
          → WriteInv s c (wire header payload) (elim w [
            | Write.done c' ↦ write_exact s fuel c' payload
            | Write.stop c' ↦ Write.stop c'
            | Write.stuck ↦ Write.stuck
          ])
      header_sent (Write.done c') put =
          WriteInv-grow s c c' (pack_header header) payload _ put
            (write_exact_lem s fuel c' payload (omega (arith, put.patience_le)))
      header_sent (Write.stop c') (front, back, e, l, o) = (
        front,
        back ++ payload,
        ap (λ x. x ++ payload) e ∙ append_assoc front back payload,
        omega (arith, length-append back payload),
        o,
      )
      header_sent Write.stuck h = h

-- Both ends: what `sendPacket` has reported as sent on a fresh connection arrives at the other end as
-- one packet of that type, number, time and payload, if the payload is within the receiver's limit.
pub receive_packet-send_packet :
    (a b : Socket) (m fuel fuel' : ℕ) (c c' : Socket.Conn a) (d : Socket.Conn b) (type : PacketType)
    (seq : ℕ) (now : ℤ) (payload rest : List ℕ)
    → IsDelivering b
    → seq < 2 ^ 64
    → IsI64 now
    → length payload ≤ m
    → m < 2 ^ 32
    → packet_header_size + length payload + Socket.patience a c < fuel
    → packet_header_size + m + Socket.patience b d < fuel'
    → Socket.outbound a c ≡ []
    → send_packet a fuel c type seq now payload ≡ Write.done c'
    → Socket.inbound b d ≡ Socket.outbound a c' ++ rest
    → (d' : Socket.Conn b) × (receive_packet b m fuel' d
        ≡ packet (make_packet_header type seq now (length payload)) payload d')
      × (Socket.inbound b d' ≡ rest)
receive_packet-send_packet a b m fuel fuel' c c' d type seq now payload rest dl hs ht hl hm f f'
      fresh e i =
    let put : Put a c c' (wire (make_packet_header type seq now (length payload)) payload) =
      rw e at (send_packet_lem a fuel c type seq now payload f) in
    let on_wire =
      i
      ∙ ap (λ x. x ++ rest)
          (put.appended
            ∙ ap (λ x. x ++ wire (make_packet_header type seq now (length payload)) payload)
                fresh) in
    let (d', r, t) =
      receive_packet-wire b m fuel' d (make_packet_header type seq now (length payload)) payload
        rest dl (make_packet_header-FitsHeader type seq now (length payload) hs ht)
        (make_packet_header-IsAccepted m type seq now (length payload) (omega arith) hl)
        (size_kept type seq now (length payload) (omega arith)) on_wire f' in
    (d', r, rest_after b t on_wire)
  where
    size_kept :
        (type : PacketType) (seq : ℕ) (now : ℤ) (n : ℕ)
        → n < 2 ^ 32
        → n ≡ (make_packet_header type seq now n).payload_size
    size_kept type seq now n h = unfold make_packet_header in omega arith
