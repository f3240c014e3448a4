-- ===== src/Tests/Pipe.antt =====
-- A socket that hands over at most seven bytes a call, after some interruptions.
use robo_vr.Base.{
  ℕ, zero, suc, ◌≤◌, ◌<◌, ◌≡◌, refl, List, [], ◌∷◌, ◌++◌, take, drop, length, min, arith,
  length-take, take-append-drop,
}
use robo_vr.Socket.Api.{Socket, Recv, Sent, got, closed, sent}
use robo_vr.Socket.Reading.{IsDelivering}

pub record Pipe : Type 0 where
  pub coming : List ℕ
  pub gone : List ℕ
  pub interrupts : ℕ

unfoldable pub read_bytes : Pipe → List ℕ → ℕ → Recv Pipe
read_bytes p [] n = closed p
read_bytes p (x ∷ xs) zero = closed p
read_bytes p (x ∷ xs) (suc n) =
    got (x ∷ take (min n 6) xs) (record p { coming = drop (min n 6) xs })

unfoldable pub recv_pipe : Pipe → ℕ → ℕ → Recv Pipe
unfolding read_bytes
recv_pipe p zero n = read_bytes p p.coming n
recv_pipe p (suc k) n = Recv.interrupted (record p { interrupts = k })

unfoldable pub send_pipe : Pipe → List ℕ → ℕ → Sent Pipe
send_pipe p bs zero =
    sent (min 7 (length bs)) (record p { gone = p.gone ++ take (min 7 (length bs)) bs })
send_pipe p bs (suc k) = Sent.interrupted (record p { interrupts = k })

read_bytes_law :
    (p : Pipe) (xs : List ℕ) (n : ℕ) (bs : List ℕ) (c : Pipe)
    → p.coming ≡ xs
    → read_bytes p xs n ≡ got bs c
    → (1 ≤ length bs)
      × (length bs ≤ n)
      × (p.coming ≡ bs ++ c.coming)
      × (c.gone ≡ p.gone)
      × (c.interrupts ≤ p.interrupts)
unfolding read_bytes
read_bytes_law p [] n bs c e r = cc
read_bytes_law p (x ∷ xs) zero bs c e r = cc
read_bytes_law p (x ∷ xs) (suc n) bs c e r =
    ground (arith, length-take (min n 6) xs, take-append-drop (min n 6) xs)

pub recv_law :
    (p : Pipe) (k n : ℕ) (bs : List ℕ) (c : Pipe)
    → recv_pipe p k n ≡ got bs c
    → (1 ≤ length bs)
      × (length bs ≤ n)
      × (p.coming ≡ bs ++ c.coming)
      × (c.gone ≡ p.gone)
      × (c.interrupts ≤ p.interrupts)
unfolding recv_pipe
recv_law p zero n bs c r = read_bytes_law p p.coming n bs c refl r
recv_law p (suc k) n bs c r = cc

pub interrupted_law :
    (p : Pipe) (k n : ℕ) (c : Pipe)
    → p.interrupts ≡ k
    → recv_pipe p k n ≡ Recv.interrupted c
    → (c.coming ≡ p.coming) × (c.gone ≡ p.gone) × (c.interrupts < p.interrupts)
unfolding recv_pipe
interrupted_law p zero n c e r = by_bytes p.coming n r
  where
    by_bytes :
        (xs : List ℕ) (n : ℕ)
        → read_bytes p xs n ≡ Recv.interrupted c
        → (c.coming ≡ p.coming) × (c.gone ≡ p.gone) × (c.interrupts < p.interrupts)
    by_bytes [] n r = cc
    by_bytes (x ∷ xs) zero r = cc
    by_bytes (x ∷ xs) (suc n) r = cc
interrupted_law p (suc k) n c e r = ground arith

pub sent_law :
    (p : Pipe) (bs : List ℕ) (i k : ℕ) (c : Pipe)
    → send_pipe p bs i ≡ sent k c
    → 1 ≤ length bs
    → (1 ≤ k)
      × (k ≤ length bs)
      × (c.gone ≡ p.gone ++ take k bs)
      × (c.coming ≡ p.coming)
      × (c.interrupts ≤ p.interrupts)
unfolding send_pipe
sent_law p bs zero k c r h = ground arith
sent_law p bs (suc i) k c r h = cc

pub send_interrupted_law :
    (p : Pipe) (bs : List ℕ) (i : ℕ) (c : Pipe)
    → p.interrupts ≡ i
    → send_pipe p bs i ≡ Sent.interrupted c
    → (c.coming ≡ p.coming) × (c.gone ≡ p.gone) × (c.interrupts < p.interrupts)
unfolding send_pipe
send_interrupted_law p bs zero c e r = cc
send_interrupted_law p bs (suc i) c e r = ground arith

pub send_failed_law :
    (p : Pipe) (bs : List ℕ) (i : ℕ) (c : Pipe)
    → send_pipe p bs i ≡ Sent.failed c
    → (c.coming ≡ p.coming) × (c.gone ≡ p.gone) × (c.interrupts ≤ p.interrupts)
unfolding send_pipe
send_failed_law p bs zero c r = cc
send_failed_law p bs (suc i) c r = cc

abbrev pub pipe : Socket
pipe = record {
  Conn = Pipe;
  recv = λ p n. recv_pipe p p.interrupts n;
  send = λ p bs. send_pipe p bs p.interrupts;
  inbound = λ p. p.coming;
  outbound = λ p. p.gone;
  patience = λ p. p.interrupts;
  recv_got = λ p n bs c r. recv_law p p.interrupts n bs c r;
  recv_interrupted = λ p n c r. interrupted_law p p.interrupts n c refl r;
  send_sent = λ p bs k c r h. sent_law p bs p.interrupts k c r h;
  send_interrupted = λ p bs c r. send_interrupted_law p bs p.interrupts c refl r;
  send_failed = λ p bs c r. send_failed_law p bs p.interrupts c r;
}

not_closed : (p c : Pipe) (k n : ℕ) → 1 ≤ n → 1 ≤ length p.coming → recv_pipe p k n ≡ closed c → ⊥
unfolding recv_pipe
not_closed p c zero n h l r = by_bytes p.coming n h l r
  where
    by_bytes : (xs : List ℕ) (n : ℕ) → 1 ≤ n → 1 ≤ length xs → read_bytes p xs n ≡ closed c → ⊥
    by_bytes [] n h l r = absurd (omega arith)
    by_bytes (x ∷ xs) zero h l r = absurd (omega arith)
    by_bytes (x ∷ xs) (suc n) h l r = cc
not_closed p c (suc k) n h l r = cc

not_failed : (p c : Pipe) (k n : ℕ) → recv_pipe p k n ≡ Recv.failed c → ⊥
unfolding recv_pipe
not_failed p c zero n r = by_bytes p.coming n r
  where
    by_bytes : (xs : List ℕ) (n : ℕ) → read_bytes p xs n ≡ Recv.failed c → ⊥
    by_bytes [] n r = cc
    by_bytes (x ∷ xs) zero r = cc
    by_bytes (x ∷ xs) (suc n) r = cc
not_failed p c (suc k) n r = cc

pub pipe-IsDelivering : IsDelivering pipe
pipe-IsDelivering = record {
  not_closed = λ p n c h l r. not_closed p c p.interrupts n h l r;
  not_failed = λ p n c h l r. not_failed p c p.interrupts n r;
}
