-- ===== src/Link/Framing.antt =====
-- What a packet is on the wire, and that the receiver cuts the stream where the sender did.
use robo_vr.Base.{
  ℕ, ◌+◌, ◌≤◌, ◌<◌, ◌≡◌, refl, sym, ◌⊎◌, inl, inr, true, false, List, [], ◌++◌, length, arith,
  append-nil, Bool-cases, if◌then◌else◌, ◌==◌,
}
use robo_vr.Protocol.Types.{
  PacketHeader, unpack_header, protocol_magic, protocol_version, packet_header_size,
}
use robo_vr.Protocol.RoundTrip.{is_known_packet_type_iff}
use robo_vr.Socket.Api.{Socket, Recv, closed}
use robo_vr.Socket.Exact.{Read}
use robo_vr.Socket.Reading.{Took, Took-append, ReadInv, read_exact_lem}
use robo_vr.Link.Packets.{
  Received, packet, lost, invalid, stuck, refuses, receive_payload, receive_packet,
}

-- A header that the receiver lets through.
pub record IsAccepted (max_payload_size : ℕ) (h : PacketHeader) : Type 0 where
  pub has_magic : h.magic ≡ protocol_magic
  pub has_version : h.version ≡ protocol_version
  pub type_min : 1 ≤ h.type
  pub type_max : h.type ≤ 8
  pub size_max : h.payload_size ≤ max_payload_size

pub refuses-false :
    (max_payload_size : ℕ) (h : PacketHeader)
    → IsAccepted max_payload_size h
    → refuses max_payload_size h ≡ false
unfolding refuses
refuses-false m h a =
    let known = (is_known_packet_type_iff h.type).1 (a.type_min, a.type_max) in ground arith

pub refuses-IsAccepted :
    (max_payload_size : ℕ) (h : PacketHeader)
    → refuses max_payload_size h ≡ false
    → IsAccepted max_payload_size h
unfolding refuses
refuses-IsAccepted m h e = ground (arith, (is_known_packet_type_iff h.type).0)

module _ (s : Socket) where
  open s use {Conn, inbound, outbound, patience}

  -- The bytes of a packet that is not whole: of its header, or of the payload behind a header that is
  -- accepted.
  abbrev pub IsPart : ℕ → List ℕ → Type 0
  IsPart m front =
      (length front < packet_header_size)
      ⊎ ((header_bytes : List ℕ) × (payload : List ℕ) × (front ≡ header_bytes ++ payload)
          × (length header_bytes ≡ packet_header_size)
          × IsAccepted m (unpack_header header_bytes)
          × (length payload < (unpack_header header_bytes).payload_size))

  -- The outcomes of a reception, each with what it means for the stream.
  abbrev pub ReceivedInv : ℕ → Conn → Received Conn → Type 0
  ReceivedInv m c (packet h payload c') =
      (header_bytes : List ℕ) × (length header_bytes ≡ packet_header_size)
      × (h ≡ unpack_header header_bytes)
      × IsAccepted m h
      × (length payload ≡ h.payload_size)
      × Took s c c' (header_bytes ++ payload)
  ReceivedInv m c (lost c') =
      (front : List ℕ) × (c₀ : Conn) × (n : ℕ) × Took s c c₀ front
      × IsPart m front
      × (1 ≤ n)
      × ((s.recv c₀ n ≡ closed c') ⊎ (s.recv c₀ n ≡ Recv.failed c'))
  ReceivedInv m c (invalid h c') =
      (header_bytes : List ℕ) × (length header_bytes ≡ packet_header_size)
      × (h ≡ unpack_header header_bytes)
      × (refuses m h ≡ true)
      × Took s c c' header_bytes
  ReceivedInv m c stuck = ⊥

  module _ (m : ℕ) (c c' : Conn) (header_bytes : List ℕ)
      (size : length header_bytes ≡ packet_header_size) (t : Took s c c' header_bytes)
      (a : IsAccepted m (unpack_header header_bytes)) where
    no_payload :
        (unpack_header header_bytes).payload_size ≡ 0
        → ReceivedInv m c (packet (unpack_header header_bytes) [] c')
    no_payload e = (header_bytes, size, refl, a, sym e, rw (← append-nil header_bytes) at t)

    read_payload :
        (r : Read Conn)
        → ReadInv s c' (unpack_header header_bytes).payload_size [] r
        → ReceivedInv m c (elim r [
          | Read.done payload c'' ↦ packet (unpack_header header_bytes) payload c''
          | Read.stop c'' ↦ lost c''
          | Read.stuck ↦ stuck
        ])
    read_payload (Read.done payload c'') (chunk, e, l, u) =
        let u' : Took s c' c'' payload = rw e u in
        (header_bytes, size, refl, a, l, Took-append s t u')
    read_payload (Read.stop c'') (chunk, c₀, n, u, l, k, e) = (
      header_bytes ++ chunk,
      c₀,
      n,
      Took-append s t u,
      inr (header_bytes, chunk, refl, size, a, omega (arith, l)),
      k,
      e,
    )
    read_payload Read.stuck h = h

    receive_payload_lem :
        (fuel : ℕ)
        → m + patience c' < fuel
        → ReceivedInv m c (receive_payload s fuel c' (unpack_header header_bytes))
    unfolding receive_payload
    receive_payload_lem fuel f =
        let size = (unpack_header header_bytes).payload_size in
        elim (Bool-cases (size == 0)) [
          | inl e ↦ rw e (no_payload (ground arith))
          | inr e ↦
              rw e (read_payload _ (read_exact_lem s fuel c' size (omega (arith, a.size_max))))
        ]

  receive_checked :
      (m fuel : ℕ) (c c' : Conn) (header_bytes : List ℕ)
      → length header_bytes ≡ packet_header_size
      → Took s c c' header_bytes
      → m + patience c' < fuel
      → ReceivedInv m c (
          let h = unpack_header header_bytes in
          if refuses m h then invalid h c' else receive_payload s fuel c' h)
  receive_checked m fuel c c' bs l t f = elim (Bool-cases (refuses m (unpack_header bs))) [
    | inl e ↦ rw e (bs, l, refl, e, t)
    | inr e ↦ rw e (receive_payload_lem m c c' bs l t (refuses-IsAccepted m _ e) fuel f)
  ]

  -- Whatever the stream holds: a packet that is handed on has a header that passes every test and a
  -- payload of the size that the header states, and is exactly what was taken from the stream; a
  -- header that is refused fails a test, and nothing behind it is read; and `false` comes behind the
  -- bytes of a packet that is not whole, from a call that found the stream closed or failed.
  pub receive_packet_lem :
      (m fuel : ℕ) (c : Conn)
      → packet_header_size + m + patience c < fuel
      → ReceivedInv m c (receive_packet s m fuel c)
  unfolding receive_packet
  receive_packet_lem m fuel c f =
      checked _ (read_exact_lem s fuel c packet_header_size (omega arith))
    where
      checked :
          (r : Read Conn)
          → ReadInv s c packet_header_size [] r
          → ReceivedInv m c (elim r [
            | Read.done bs c' ↦
                let h = unpack_header bs in
                if refuses m h then invalid h c' else receive_payload s fuel c' h
            | Read.stop c' ↦ lost c'
            | Read.stuck ↦ stuck
          ])
      checked (Read.done bs c') (chunk, e, l, t) =
          let t' : Took s c c' bs = rw e t in
          receive_checked m fuel c c' bs l t' (omega (arith, t'.patience_le))
      checked (Read.stop c') (chunk, c₀, n, t, l, k, e) =
          (chunk, c₀, n, t, inl (omega (arith, l)), k, e)
      checked Read.stuck h = h
