-- ===== src/Socket/Exact.antt =====
-- `readExact` and `writeExact`, which host_bridge/src/tcp_server.cpp and
-- quest_client/app/src/main/cpp/transport.cpp hold in the same words. The buffer that `readExact`
-- fills is its result; `total` is the length of what it has read. A loop has one unit of fuel for a
-- call of the system.
use robo_vr.Base.{ℕ, zero, suc, ◌+◌, ◌-◌, true, false, List, [], ◌++◌, length, drop, ltb}
use robo_vr.Socket.Api.{Socket, Recv, Sent, got, closed, sent}

-- `done`: true, with the bytes; `stop`: false; `stuck`: the fuel ran out.
pub data Read (C : Type 0) : Type 0 where
  done : List ℕ → C → Read C
  stop : C → Read C
  stuck : Read C

pub data Write (C : Type 0) : Type 0 where
  done : C → Write C
  stop : C → Write C
  stuck : Write C

module _ (s : Socket) where
  open s use {Conn, recv, send}

  unfoldable pub read_loop : ℕ → Conn → ℕ → List ℕ → Read Conn
  read_loop zero c size bytes = Read.stuck
  read_loop (suc fuel) c size bytes = elim (ltb (length bytes) size) [
    | false ↦ Read.done bytes c
    | true ↦ elim (recv c (size - length bytes)) [
      | got bs c' ↦ read_loop fuel c' size (bytes ++ bs)
      | closed c' ↦ Read.stop c'
      | Recv.interrupted c' ↦ read_loop fuel c' size bytes
      | Recv.failed c' ↦ Read.stop c'
    ]
  ]

  unfoldable pub read_exact : ℕ → Conn → ℕ → Read Conn
  unfolding read_loop
  read_exact fuel c size = read_loop fuel c size []

  unfoldable pub write_loop : ℕ → Conn → List ℕ → ℕ → Write Conn
  write_loop zero c bytes total = Write.stuck
  write_loop (suc fuel) c bytes total = elim (ltb total (length bytes)) [
    | false ↦ Write.done c
    | true ↦ elim (send c (drop total bytes)) [
      | sent n c' ↦ write_loop fuel c' bytes (total + n)
      | Sent.interrupted c' ↦ write_loop fuel c' bytes total
      | Sent.failed c' ↦ Write.stop c'
    ]
  ]

  unfoldable pub write_exact : ℕ → Conn → List ℕ → Write Conn
  unfolding write_loop
  write_exact fuel c bytes = write_loop fuel c bytes 0
