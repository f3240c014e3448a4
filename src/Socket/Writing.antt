-- ===== src/Socket/Writing.antt =====
-- What `writeExact` leaves on the wire.
use robo_vr.Base.{
  ℕ, zero, suc, ◌+◌, ◌-◌, ◌≤◌, ◌<◌, ◌≡◌, refl, sym, ap, ◌∙◌, inl, inr, List, [], ◌∷◌, ◌++◌, length,
  take, drop, arith, ltb, lt→ltb, le→ltb_false, append_assoc, append-nil, Bool-cases, ltb→lt,
  take-append-drop, length-drop,
}
use robo_vr.Socket.Api.{Socket, Sent, sent}
use robo_vr.Socket.Exact.{Write, write_loop, write_exact}

drop-add {ℓ} : {A : Type ℓ} (m n : ℕ) (xs : List A) → drop (m + n) xs ≡ drop n (drop m xs)
drop-add zero n xs = let e : zero + n ≡ n = omega arith in rw e
drop-add (suc m) zero [] = let e : suc m + zero ≡ suc m = omega arith in rw e
drop-add (suc m) (suc n) [] = let e : suc m + suc n ≡ suc (m + suc n) = omega arith in rw e
drop-add (suc m) n (x ∷ xs) =
    let e : suc m + n ≡ suc (m + n) = omega arith in rw e (drop-add m n xs)

module _ (s : Socket) where
  open s use {Conn, send, inbound, outbound, patience, send_sent, send_interrupted, send_failed}

  write_loop_end :
      (fuel : ℕ) (c : Conn) (bytes : List ℕ) (total : ℕ)
      → length bytes ≤ total
      → write_loop s (suc fuel) c bytes total ≡ Write.done c
  unfolding write_loop
  write_loop_end fuel c bytes total h = rw (le→ltb_false total (length bytes) h, write_loop)

  write_loop_step :
      (fuel : ℕ) (c : Conn) (bytes : List ℕ) (total : ℕ) (r : Sent Conn)
      → total < length bytes
      → send c (drop total bytes) ≡ r
      → write_loop s (suc fuel) c bytes total ≡ elim r [
        | sent n c' ↦ write_loop s fuel c' bytes (total + n)
        | Sent.interrupted c' ↦ write_loop s fuel c' bytes total
        | Sent.failed c' ↦ Write.stop c'
      ]
  unfolding write_loop
  write_loop_step fuel c bytes total r h e = rw (lt→ltb total (length bytes) h, e, write_loop)

  -- What a write that succeeded has done to the connection.
  pub record Put (c c' : Conn) (bytes : List ℕ) : Type 0 where
    pub appended : outbound c' ≡ outbound c ++ bytes
    pub same_inbound : inbound c' ≡ inbound c
    pub patience_le : patience c' ≤ patience c

  pub Put-append :
      {c c' c'' : Conn} {xs ys : List ℕ} → Put c c' xs → Put c' c'' ys → Put c c'' (xs ++ ys)
  Put-append {c} {c'} {c''} {xs} {ys} t u = record {
    appended = u.appended ∙ ap (λ o. o ++ ys) t.appended ∙ append_assoc (outbound c) xs ys;
    same_inbound = u.same_inbound ∙ t.same_inbound;
    patience_le = omega arith;
  }

  -- `true`: the rest of the buffer is on the wire. `false`: some leading part of it is.
  abbrev pub WriteInv : Conn → List ℕ → Write Conn → Type 0
  WriteInv c rest (Write.done c') = Put c c' rest
  WriteInv c rest (Write.stop c') =
      (front : List ℕ) × (back : List ℕ) × (rest ≡ front ++ back)
      × (1 ≤ length back)
      × Put c c' front
  WriteInv c rest Write.stuck = ⊥

  pub WriteInv-grow :
      (c c' : Conn) (chunk rest : List ℕ) (r : Write Conn)
      → Put c c' chunk
      → WriteInv c' rest r
      → WriteInv c (chunk ++ rest) r
  WriteInv-grow c c' chunk rest (Write.done c'') p q = Put-append p q
  WriteInv-grow c c' chunk rest (Write.stop c'') p (front, back, e, l, q) = (
    chunk ++ front,
    back,
    ap (◌++◌ chunk) e ∙ sym (append_assoc chunk front back),
    l,
    Put-append p q,
  )
  WriteInv-grow c c' chunk rest Write.stuck p q = q

  module _ (fuel : ℕ) (c : Conn) (bytes : List ℕ) (total : ℕ) (less : total < length bytes)
      (rounds : length bytes - total + patience c < suc fuel)
      (ih : (c' : Conn) (total' : ℕ)
        → total' ≤ length bytes
        → length bytes - total' + patience c' < fuel
        → WriteInv c' (drop total' bytes) (write_loop s fuel c' bytes total')) where
    write_step :
        (r : Sent Conn)
        → send c (drop total bytes) ≡ r
        → WriteInv c (drop total bytes) (write_loop s (suc fuel) c bytes total)
    write_step (sent n c') e =
        let l = send_sent c _ n c' e (omega (arith, length-drop total bytes)) in
        let put : Put c c' (take n (drop total bytes)) = record {
          appended = l.2;
          same_inbound = l.3;
          patience_le = l.4;
        } in
        rw (write_loop_step fuel c bytes total (sent n c') less e) (
          rw (take-append-drop n (drop total bytes)) at (
            WriteInv-grow c c' (take n (drop total bytes)) (drop n (drop total bytes)) _ put (
              rw (drop-add total n bytes) at (
                ih c' (total + n) (omega (arith, length-drop total bytes))
                  (omega (arith, length-drop total bytes))))))
    write_step (Sent.interrupted c') e =
        let l = send_interrupted c _ c' e in
        let put : Put c c' [] = record {
          appended = l.1 ∙ sym (append-nil (outbound c));
          same_inbound = l.0;
          patience_le = omega arith;
        } in
        rw (write_loop_step fuel c bytes total (Sent.interrupted c') less e)
          (WriteInv-grow c c' [] (drop total bytes) _ put (ih c' total (omega arith) (omega arith)))
    write_step (Sent.failed c') e =
        let l = send_failed c _ c' e in
        rw (write_loop_step fuel c bytes total (Sent.failed c') less e) (
          [],
          drop total bytes,
          refl,
          omega (arith, length-drop total bytes),
          record {
            appended = l.1 ∙ sym (append-nil (outbound c));
            same_inbound = l.0;
            patience_le = l.2;
          },
        )

  drop_end : (bytes : List ℕ) (n : ℕ) → length bytes ≤ n → drop n bytes ≡ []
  drop_end [] zero h = refl
  drop_end [] (suc n) h = refl
  drop_end (x ∷ xs) zero h = absurd (omega arith)
  drop_end (x ∷ xs) (suc n) h = drop_end xs n (omega arith)

  write_loop_lem :
      (fuel : ℕ) (c : Conn) (bytes : List ℕ) (total : ℕ)
      → total ≤ length bytes
      → length bytes - total + patience c < fuel
      → WriteInv c (drop total bytes) (write_loop s fuel c bytes total)
  write_loop_lem zero c bytes total h f = absurd (omega arith)
  write_loop_lem (suc fuel) c bytes total h f = elim (Bool-cases (ltb total (length bytes))) [
    | inl less ↦
        write_step fuel c bytes total (ltb→lt _ _ less) f
          (λ c' total' h' f'. write_loop_lem fuel c' bytes total' h' f') _ refl
    | inr e ↦
        let full : length bytes ≤ total = ground arith in
        rw (write_loop_end fuel c bytes total full, drop_end bytes total full)
          (record {
            appended = sym (append-nil (outbound c));
            same_inbound = refl;
            patience_le = omega arith;
          })
  ]

  -- With fuel for each byte and each interruption, `writeExact` ends; if it returns true, all bytes
  -- are on the wire, in order; if it returns false, a proper leading part of them is.
  pub write_exact_lem :
      (fuel : ℕ) (c : Conn) (bytes : List ℕ)
      → length bytes + patience c < fuel
      → WriteInv c bytes (write_exact s fuel c bytes)
  unfolding write_exact
  write_exact_lem fuel c bytes f = write_loop_lem fuel c bytes 0 (omega arith) (omega arith)
