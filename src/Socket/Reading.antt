-- ===== src/Socket/Reading.antt =====
-- What `readExact` returns, on any socket and on one that delivers its stream.
use robo_vr.Base.{
  ℕ, zero, suc, ◌+◌, ◌-◌, ◌≤◌, ◌<◌, ◌≡◌, ◌≢◌, refl, sym, ap, ◌∙◌, ◌⊎◌, inl, inr, List, [], ◌++◌,
  length, arith, ltb, lt→ltb, le→ltb_false, append_assoc, append-nil, length-append, Bool-cases,
  ltb→lt, append_split,
}
use robo_vr.Socket.Api.{Socket, Recv, got, closed}
use robo_vr.Socket.Exact.{Read, read_loop, read_exact}

module _ (s : Socket) where
  open s use {Conn, recv, inbound, outbound, patience, recv_got, recv_interrupted}

  read_loop_end :
      (fuel : ℕ) (c : Conn) (size : ℕ) (bytes : List ℕ)
      → size ≤ length bytes
      → read_loop s (suc fuel) c size bytes ≡ Read.done bytes c
  unfolding read_loop
  read_loop_end fuel c size bytes h = rw (le→ltb_false (length bytes) size h, read_loop)

  read_loop_step :
      (fuel : ℕ) (c : Conn) (size : ℕ) (bytes : List ℕ) (r : Recv Conn)
      → length bytes < size
      → recv c (size - length bytes) ≡ r
      → read_loop s (suc fuel) c size bytes ≡ elim r [
        | got bs c' ↦ read_loop s fuel c' size (bytes ++ bs)
        | closed c' ↦ Read.stop c'
        | Recv.interrupted c' ↦ read_loop s fuel c' size bytes
        | Recv.failed c' ↦ Read.stop c'
      ]
  unfolding read_loop
  read_loop_step fuel c size bytes r h e = rw (lt→ltb (length bytes) size h, e, read_loop)

  -- What a read that succeeded has done to the connection.
  pub record Took (c c' : Conn) (chunk : List ℕ) : Type 0 where
    pub consumed : inbound c ≡ chunk ++ inbound c'
    pub same_outbound : outbound c' ≡ outbound c
    pub patience_le : patience c' ≤ patience c

  pub Took-refl : (c : Conn) → Took c c []
  Took-refl c = record { consumed = refl; same_outbound = refl; patience_le = omega arith }

  pub Took-append :
      {c c' c'' : Conn} {xs ys : List ℕ} → Took c c' xs → Took c' c'' ys → Took c c'' (xs ++ ys)
  Took-append {c} {c'} {c''} {xs} {ys} t u = record {
    consumed = t.consumed ∙ ap (◌++◌ xs) u.consumed ∙ sym (append_assoc xs ys (inbound c''));
    same_outbound = u.same_outbound ∙ t.same_outbound;
    patience_le = omega arith;
  }

  Took-got : (c : Conn) (n : ℕ) (bs : List ℕ) (c' : Conn) → recv c n ≡ got bs c' → Took c c' bs
  Took-got c n bs c' e =
      let l = recv_got c n bs c' e in
      record { consumed = l.2; same_outbound = l.3; patience_le = l.4 }

  Took-interrupted : (c : Conn) (n : ℕ) (c' : Conn) → recv c n ≡ Recv.interrupted c' → Took c c' []
  Took-interrupted c n c' e =
      let l = recv_interrupted c n c' e in
      record { consumed = sym l.0; same_outbound = l.1; patience_le = omega arith }

  -- The stream is not cut while bytes of it are on their way.
  pub record IsDelivering : Type 0 where
    pub not_closed :
        (c : Conn) (n : ℕ) (c' : Conn) → 1 ≤ n → 1 ≤ length (inbound c) → recv c n ≢ closed c'
    pub not_failed :
        (c : Conn) (n : ℕ) (c' : Conn) → 1 ≤ n → 1 ≤ length (inbound c) → recv c n ≢ Recv.failed c'

  -- `true` comes with exactly the bytes asked for, `false` behind fewer of them, from a call that found
  -- the stream closed or failed; the loop ends.
  abbrev pub ReadInv : Conn → ℕ → List ℕ → Read Conn → Type 0
  ReadInv c size bytes (Read.done out c') =
      (chunk : List ℕ) × (out ≡ bytes ++ chunk) × (length out ≡ size) × Took c c' chunk
  ReadInv c size bytes (Read.stop c') =
      (chunk : List ℕ) × (c₀ : Conn) × (n : ℕ) × Took c c₀ chunk
      × (length bytes + length chunk < size)
      × (1 ≤ n)
      × ((recv c₀ n ≡ closed c') ⊎ (recv c₀ n ≡ Recv.failed c'))
  ReadInv c size bytes Read.stuck = ⊥

  ReadInv-grow :
      (c c' : Conn) (size : ℕ) (bytes chunk : List ℕ) (r : Read Conn)
      → Took c c' chunk
      → ReadInv c' size (bytes ++ chunk) r
      → ReadInv c size bytes r
  ReadInv-grow c c' size bytes chunk (Read.done out c'') t (more, e, l, u) =
      (chunk ++ more, e ∙ append_assoc bytes chunk more, l, Took-append t u)
  ReadInv-grow c c' size bytes chunk (Read.stop c'') t (more, c₀, n, u, l, h, r) = (
    chunk ++ more,
    c₀,
    n,
    Took-append t u,
    omega (arith, length-append bytes chunk, length-append chunk more),
    h,
    r,
  )
  ReadInv-grow c c' size bytes chunk Read.stuck t h = h

  module _ (fuel : ℕ) (c : Conn) (size : ℕ) (bytes : List ℕ) (less : length bytes < size)
      (rounds : size - length bytes + patience c < suc fuel)
      (ih : (c' : Conn) (bytes' : List ℕ)
        → length bytes' ≤ size
        → size - length bytes' + patience c' < fuel
        → ReadInv c' size bytes' (read_loop s fuel c' size bytes')) where
    read_step :
        (r : Recv Conn)
        → recv c (size - length bytes) ≡ r
        → ReadInv c size bytes (read_loop s (suc fuel) c size bytes)
    read_step (got bs c') e =
        let l = recv_got c _ bs c' e in
        rw (read_loop_step fuel c size bytes (got bs c') less e) (
          ReadInv-grow c c' size bytes bs _ (Took-got c _ bs c' e) (
            ih c' (bytes ++ bs) (omega (arith, length-append bytes bs))
              (omega (arith, length-append bytes bs))))
    read_step (closed c') e =
        rw (read_loop_step fuel c size bytes (closed c') less e)
          ([], c, size - length bytes, Took-refl c, omega arith, omega arith, inl e)
    read_step (Recv.interrupted c') e =
        let l = recv_interrupted c _ c' e in
        rw (read_loop_step fuel c size bytes (Recv.interrupted c') less e) (
          ReadInv-grow c c' size bytes [] _ (Took-interrupted c _ c' e)
            (rw append-nil (ih c' bytes (omega arith) (omega arith))))
    read_step (Recv.failed c') e =
        rw (read_loop_step fuel c size bytes (Recv.failed c') less e)
          ([], c, size - length bytes, Took-refl c, omega arith, omega arith, inr e)

  read_loop_lem :
      (fuel : ℕ) (c : Conn) (size : ℕ) (bytes : List ℕ)
      → length bytes ≤ size
      → size - length bytes + patience c < fuel
      → ReadInv c size bytes (read_loop s fuel c size bytes)
  read_loop_lem zero c size bytes h f = absurd (omega arith)
  read_loop_lem (suc fuel) c size bytes h f = elim (Bool-cases (ltb (length bytes) size)) [
    | inl less ↦
        read_step fuel c size bytes (ltb→lt _ _ less) f
          (λ c' bytes' h' f'. read_loop_lem fuel c' size bytes' h' f') _ refl
    | inr e ↦
        let full : size ≤ length bytes = ground arith in
        rw (read_loop_end fuel c size bytes full)
          ([], sym (append-nil bytes), omega arith, Took-refl c)
  ]

  -- With fuel for each byte and each interruption, `readExact` ends. If it returns true, it returns
  -- the next `size` bytes of the stream and takes nothing else; if it returns false, it has taken
  -- fewer, and the last `recv` found the stream closed or failed.
  pub read_exact_lem :
      (fuel : ℕ) (c : Conn) (size : ℕ)
      → size + patience c < fuel
      → ReadInv c size [] (read_exact s fuel c size)
  unfolding read_exact
  read_exact_lem fuel c size f = read_loop_lem fuel c size [] (omega arith) (omega arith)

  abbrev pub Delivered : Conn → List ℕ → Read Conn → Type 0
  Delivered c chunk r = (c' : Conn) × (r ≡ Read.done chunk c') × Took c c' chunk

  delivered :
      (c : Conn) (chunk rest : List ℕ) (r : Read Conn)
      → IsDelivering
      → inbound c ≡ chunk ++ rest
      → ReadInv c (length chunk) [] r
      → Delivered c chunk r
  delivered c chunk rest (Read.done out c') d e (more, o, l, t) =
      let same : more ≡ chunk =
        (append_split more chunk (inbound c') rest (rw o at l) (sym t.consumed ∙ e)).0 in
      (c', rw (o, same) refl, rw same at t)
  delivered c chunk rest (Read.stop c') d e (front, c₀, n, t, l, h, r) =
      let more : 1 ≤ length (inbound c₀) = omega (
        arith,
        ap length e,
        ap length t.consumed,
        length-append chunk rest,
        length-append front (inbound c₀),
      ) in
      elim r [
        | inl x ↦ absurd (d.not_closed c₀ n c' h more x)
        | inr x ↦ absurd (d.not_failed c₀ n c' h more x)
      ]
  delivered c chunk rest Read.stuck d e h = absurd h

  -- A stream that is not cut gives up its next bytes to a read of their number.
  pub read_exact_delivers :
      (fuel : ℕ) (c : Conn) (chunk rest : List ℕ)
      → IsDelivering
      → inbound c ≡ chunk ++ rest
      → length chunk + patience c < fuel
      → Delivered c chunk (read_exact s fuel c (length chunk))
  read_exact_delivers fuel c chunk rest d e f =
      delivered c chunk rest _ d e (read_exact_lem fuel c (length chunk) f)
