-- ===== src/Server/Lifecycle.antt =====
-- Descriptors of `TcpServer`: what `start`, `stop` and a round of `acceptLoop` leave open.
use robo_vr.Base.{
  ℕ, ◌≡◌, ◌≢◌, refl, Bool, true, false, List, [], ◌∷◌, ◌++◌, Bool-cases, Option, none, some, arith,
  ==_refl, if◌then◌else◌, ◌==◌, ◌⊎◌, inl, inr,
}
use robo_vr.Base.Text.{codes}
use robo_vr.Socket.Api.{Socket}
use robo_vr.Server.Defs.{Server, start, stop, admit, dismiss, close_listen, emit_status}

module _ (s : Socket) {A : Type 0} (on_status : List ℕ → A → A) where
  -- Between calls: a server that does not run has no descriptor open and no thread; one that runs
  -- listens, with its thread.
  pub record IsValid (srv : Server s A) : Type 0 where
    pub down_listen : srv.running ≡ false → srv.listen_fd ≡ none
    pub down_client : srv.running ≡ false → srv.client_fd ≡ none
    pub worker_runs : srv.worker ≡ srv.running
    pub up_listen : srv.running ≡ true → srv.listen_fd ≢ none

  abbrev pub fds : Option ℕ → List ℕ
  fds none = []
  fds (some fd) = fd ∷ []

  -- What `start` has done with the descriptor that `socket` gave.
  abbrev pub IsStarted : Option ℕ → Server s A → Server s A × Bool → Type 0
  IsStarted opened srv (srv', ok) =
      ((srv.running ≡ true) × ((ok ≡ true) × (srv' ≡ srv)))
      ⊎ ((srv.running ≡ false)
          × (((ok ≡ true) × ((srv'.listen_fd ≡ opened) × (srv'.closed ≡ srv.closed)))
              ⊎ ((ok ≡ false)
                  × ((srv'.listen_fd ≡ none) × (srv'.closed ≡ fds opened ++ srv.closed)))))

  -- On a valid server, and on every answer of the system, `start` leaves a valid one, which runs
  -- exactly if the result is true. A server that runs already is left as it is. Otherwise the
  -- descriptor that `socket` gave, if any, is the listener and nothing has been closed if the
  -- result is true, and has been closed, once and nothing else with it, if it is false.
  pub start-IsValid :
      (opened : Option ℕ) (bound listens : Bool) (srv : Server s A)
      → IsValid srv
      → IsValid (start s on_status opened bound listens srv).0
        × ((start s on_status opened bound listens srv).0.running
            ≡ (start s on_status opened bound listens srv).1)
        × IsStarted opened srv (start s on_status opened bound listens srv)
  unfolding start close_listen
  start-IsValid none bound listens srv v = (ground arith, ground arith, by_running srv.running refl)
    where
      failed : Server s A × Bool
      failed = (
        emit_status s on_status (codes "socket() failed")
            (record srv { running = false; listen_fd = none }),
        false,
      )

      by_running :
          (b : Bool) → srv.running ≡ b → IsStarted none srv (if b then (srv, true) else failed)
      by_running true e = inl (e, (refl, refl))
      by_running false e = inr (e, inr (refl, (refl, refl)))
  start-IsValid (some fd) bound listens srv v =
      (ground arith, ground arith, by_tests srv.running bound listens refl)
    where
      by_tests :
          (b p q : Bool)
          → srv.running ≡ b
          → let open_server : Server s A = record srv { running = true; listen_fd = some fd } in
            let refused : Server s A = record srv {
              running = false;
              listen_fd = none;
              closed = fd ∷ srv.closed;
            } in
            IsStarted (some fd) srv (
              if b
              then (srv, true)
              else if p
              then if q
                then (
                  emit_status s on_status
                      (codes "listening")
                      (record open_server { worker = true }),
                  true,
                )
                else (emit_status s on_status (codes "listen() failed") refused, false)
              else (emit_status s on_status (codes "bind() failed") refused, false))
      by_tests true p q e = inl (e, (refl, refl))
      by_tests false true true e = inr (e, inl (refl, (refl, refl)))
      by_tests false true false e = inr (e, inr (refl, (refl, refl)))
      by_tests false false q e = inr (e, inr (refl, (refl, refl)))

  -- `stop` on a valid server that runs closes the listener and the client, each once if it is
  -- open, and leaves a valid server with neither and no thread, that a second `stop` does not
  -- change.
  pub stop_lem :
      (srv : Server s A)
      → IsValid srv
      → srv.running ≡ true
      → IsValid (stop s on_status srv)
        × ((stop s on_status srv).running ≡ false)
        × ((stop s on_status srv).closed ≡ fds srv.listen_fd ++ (fds srv.client_fd ++ srv.closed))
        × (stop s on_status (stop s on_status srv) ≡ stop s on_status srv)
  unfolding stop
  stop_lem srv v r = (
    record {
      down_listen = ground arith;
      down_client = ground arith;
      worker_runs = ground arith;
      up_listen = ground arith;
    },
    ground arith,
    ground arith,
    ground arith,
  )

  -- Behind the client loop, the round closes the descriptor that it admitted if it is still the
  -- client, and does not close it a second time if `stop` has done so, nor any other client.
  pub dismiss_lem :
      (fd : ℕ) (srv : Server s A)
      → ((srv.client_fd ≡ some fd)
          × ((dismiss s on_status fd srv).client_fd ≡ none)
          × ((dismiss s on_status fd srv).closed ≡ fd ∷ srv.closed))
        ⊎ ((srv.client_fd ≢ some fd)
            × ((dismiss s on_status fd srv).client_fd ≡ srv.client_fd)
            × ((dismiss s on_status fd srv).closed ≡ srv.closed))
  unfolding dismiss
  dismiss_lem fd srv = by_client srv.client_fd refl
    where
      by_client :
          (client : Option ℕ)
          → srv.client_fd ≡ client
          → ((srv.client_fd ≡ some fd)
              × ((dismiss s on_status fd srv).client_fd ≡ none)
              × ((dismiss s on_status fd srv).closed ≡ fd ∷ srv.closed))
            ⊎ ((srv.client_fd ≢ some fd)
                × ((dismiss s on_status fd srv).client_fd ≡ srv.client_fd)
                × ((dismiss s on_status fd srv).closed ≡ srv.closed))
      by_client none e = inr (ground arith, ground arith, ground arith)
      by_client (some c) e = elim (Bool-cases (c == fd)) [
        | inl same ↦ inl (ground arith, ground arith, ground arith)
        | inr other ↦ inr (ground arith, ground arith, ground arith)
      ]

  -- A new client takes the place of the old one, which is closed.
  pub admit_lem :
      (fd : ℕ) (c : s.Conn) (srv : Server s A)
      → ((admit s on_status fd c srv).client_fd ≡ some fd)
        × ((admit s on_status fd c srv).conn fd ≡ c)
        × ((admit s on_status fd c srv).closed ≡ fds srv.client_fd ++ srv.closed)
        × ((admit s on_status fd c srv).listen_fd ≡ srv.listen_fd)
  unfolding admit
  admit_lem fd c srv = (ground arith, ground (arith, ==_refl fd), ground arith, ground arith)
