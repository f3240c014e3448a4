-- ===== src/Socket/Api.antt =====
-- What both programs use of the system's sockets: `recv`, `send` and `select` on a connected stream
-- socket. The system is a parameter; its laws are those that POSIX documents for such a socket.
use robo_vr.Base.{ℕ, ◌≤◌, ◌<◌, ◌≡◌, List, ◌++◌, take, length}

-- The outcome of one `recv`: some bytes, the end of the stream (0), EINTR, or another error.
pub data Recv (C : Type 0) : Type 0 where
  got : List ℕ → C → Recv C
  closed : C → Recv C
  interrupted : C → Recv C
  failed : C → Recv C

-- The outcome of one `send`: a count, EINTR, or another error.
pub data Sent (C : Type 0) : Type 0 where
  sent : ℕ → C → Sent C
  interrupted : C → Sent C
  failed : C → Sent C

pub record Socket : Type 1 where
  pub Conn : Type 0
  pub recv : Conn → ℕ → Recv Conn
  pub send : Conn → List ℕ → Sent Conn
  -- The bytes on their way in that no `recv` has returned yet, and those that `send` has taken.
  pub inbound : Conn → List ℕ
  pub outbound : Conn → List ℕ
  -- How often signals will still interrupt calls on this connection.
  pub patience : Conn → ℕ
  -- `recv` returns at most the count asked for, at least one byte, and bytes in order.
  pub recv_got :
      (c : Conn) (n : ℕ) (bs : List ℕ) (c' : Conn)
      → recv c n ≡ got bs c'
      → (1 ≤ length bs)
        × (length bs ≤ n)
        × (inbound c ≡ bs ++ inbound c')
        × (outbound c' ≡ outbound c)
        × (patience c' ≤ patience c)
  pub recv_interrupted :
      (c : Conn) (n : ℕ) (c' : Conn)
      → recv c n ≡ interrupted c'
      → (inbound c' ≡ inbound c) × (outbound c' ≡ outbound c) × (patience c' < patience c)
  -- `send` takes a leading part of what it is handed, and something of what is not empty.
  pub send_sent :
      (c : Conn) (bs : List ℕ) (k : ℕ) (c' : Conn)
      → send c bs ≡ sent k c'
      → 1 ≤ length bs
      → (1 ≤ k)
        × (k ≤ length bs)
        × (outbound c' ≡ outbound c ++ take k bs)
        × (inbound c' ≡ inbound c)
        × (patience c' ≤ patience c)
  pub send_interrupted :
      (c : Conn) (bs : List ℕ) (c' : Conn)
      → send c bs ≡ interrupted c'
      → (inbound c' ≡ inbound c) × (outbound c' ≡ outbound c) × (patience c' < patience c)
  -- A call that fails has sent nothing.
  pub send_failed :
      (c : Conn) (bs : List ℕ) (c' : Conn)
      → send c bs ≡ failed c'
      → (inbound c' ≡ inbound c) × (outbound c' ≡ outbound c) × (patience c' ≤ patience c)
