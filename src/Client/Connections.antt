-- ===== src/Client/Connections.antt =====
-- What `transportLoop` keeps over its connections.
use robo_vr.Base.{
  ◌≤◌, length, arith, All, ℕ, if◌then◌else◌, Bool, true, false, not, List, [], ◌∷◌, ◌++◌, ◌≡◌, refl,
  Option, none, some, ℤ, pos, ◌-ℤ◌, leb_ℤ,
}
use robo_vr.Base.Text.{codes}
use robo_vr.Protocol.Types.{hello, heartbeat, pose}
use robo_vr.Socket.Api.{Socket}
use robo_vr.Socket.Exact.{Write}
use robo_vr.Video.Decoder.State.{Millis, VideoDecodeAck}
use robo_vr.Client.Transport.{Client, Floats, send_next, send_video_decode_acks, take_latest_pose}
use robo_vr.Client.Loop.{Tick, send_heartbeat, send_latest_pose, transport_round}
use robo_vr.Client.Progress.{
  max_report_size, IsEnough, IsEnoughRound, IsSoundClient, Stands, Ends, Stays, Stays-Ends,
  send_next-Stays, send_video_decode_acks-Ends, receive_host_packets-Ends,
}
use robo_vr.Client.Run.{connect_tcp, Attempt, inner_loop, serve, transport_loop}

-- Fuel for all calls of a round of the inner loop.
abbrev pub IsEnoughTick : ℕ → Tick → Type 0
IsEnoughTick b t =
    All (IsEnoughRound b) t.rounds
    × IsEnough b t.acknowledge
    × IsEnough b t.beat
    × IsEnough b t.report

-- Fuel for all calls on the connection of an attempt.
abbrev pub IsEnoughAttempt : (s : Socket) → Attempt s → Type 0
IsEnoughAttempt s a =
    IsEnough (s.patience a.conn) a.greet × All (IsEnoughTick (s.patience a.conn)) a.ticks

-- The descriptors that `socket` has given out, newest first.
abbrev pub opened : (s : Socket) → List (Attempt s) → List ℕ → List ℕ
opened s [] before = before
opened s (a ∷ attempts) before =
    opened s attempts (elim a.connect.socket [ none ↦ before | some fd ↦ fd ∷ before ])

module _ (s : Socket) {f : Millis} (g : Floats) {P : Type 0} where
  -- What a run of the loop leaves; it does not run out of fuel.
  abbrev pub LeavesSound : List ℕ → Option (Client s f g P × List ℕ) → Type 0
  LeavesSound descriptors none = ⊥
  LeavesSound descriptors (some (c, closed)) = IsSoundClient s g c × (closed ≡ descriptors)

module _ (s : Socket) {f : Millis} (g : Floats) {P : Type 0} (print : VideoDecodeAck f → List ℕ)
    (print_pose : P → List ℕ)
    (short : (ack : VideoDecodeAck f) → length (print ack) ≤ max_report_size)
    (pose_short : (x : P) → length (print_pose x) ≤ max_report_size) where
  abbrev Sound : Client s f g P → Type 0
  Sound c = IsSoundClient s g c

  abbrev Good : ℕ → Client s f g P → Type 0
  Good b c = Stands s g b c

  abbrev After : ℕ → Write (Client s f g P) → Type 0
  After b w = Ends s g b w

  -- What holds however a call has ended.
  after_call :
      {R : Type 0} (Q : R → Type 0) (b : ℕ) (done stop : Client s f g P → R) (stuck : R)
      (w : Write (Client s f g P))
      → After b w
      → ((c : Client s f g P) → Good b c → Q (done c))
      → ((c : Client s f g P) → Sound c → Q (stop c))
      → Q (elim w [ Write.done c ↦ done c | Write.stop c ↦ stop c | Write.stuck ↦ stuck ])
  after_call Q b done stop stuck (Write.done c) v h k = h c v
  after_call Q b done stop stuck (Write.stop c) v h k = k c v
  after_call Q b done stop stuck Write.stuck v h k = absurd v

  send_heartbeat-After :
      (b : ℕ) (last : ℤ) (t : Tick) (c : Client s f g P)
      → IsEnough b t.beat
      → Good b c
      → After b (send_heartbeat s g print print_pose last t c).0
  unfolding send_heartbeat
  send_heartbeat-After b last t c enough v = by_test (leb_ℤ (pos 500_000_000) (t.now -ℤ last))
    where
      sent : Write (Client s f g P) × ℤ
      sent = elim (send_next s g t.beat heartbeat (codes "quest_alive=1") c) [
        | Write.done c' ↦ (Write.done c', t.now)
        | Write.stop c' ↦ (Write.stop c', last)
        | Write.stuck ↦ (Write.stuck, last)
      ]

      by_test :
          (due : Bool)
          → After b (if◌then◌else◌ {A = Write (Client s f g P) × ℤ} due sent (Write.done c, last)).0
      by_test true =
          let w = send_next s g t.beat heartbeat (codes "quest_alive=1") c in
          after_call (λ (r : Write (Client s f g P) × ℤ). After b r.0) b
            (λ c'. (Write.done c', t.now)) (λ c'. (Write.stop c', last)) (Write.stuck, last) w
            (Stays-Ends s g b w (
              send_next-Stays s g b t.beat heartbeat (codes "quest_alive=1") c enough (omega arith)
                v))
            (λ c' u. u) (λ c' u. u)
      by_test false = v

  send_latest_pose-After :
      (b : ℕ) (t : Tick) (c : Client s f g P)
      → IsEnough b t.report
      → Good b c
      → After b (send_latest_pose s g print print_pose t c)
  unfolding send_latest_pose take_latest_pose
  send_latest_pose-After b t c enough v = by_pose c.latest_pose
    where
      by_pose :
          (o : Option P)
          → let c' : Client s f g P = record c { latest_pose = none } in
            After b (elim o [
              | none ↦ Write.done c'
              | some sample ↦ send_next s g t.report pose (print_pose sample) c'
            ])
      by_pose none = v
      by_pose (some sample) =
          Stays-Ends s g b _
            (send_next-Stays s g b t.report pose (print_pose sample) _ enough (pose_short sample) v)

  transport_round-After :
      (b : ℕ) (last : ℤ) (t : Tick) (c : Client s f g P)
      → IsEnoughTick b t
      → Good b c
      → After b (transport_round s g print print_pose last t c).0
  unfolding transport_round
  transport_round-After b last t c (rounds, acks, beats, reports) v =
      after_call Q b acknowledged (λ c₁. (Write.stop c₁, last)) (Write.stuck, last) _
        (receive_host_packets-Ends s g print short print_pose b t.rounds c rounds v)
        (λ c₁ v₁.
          after_call Q b beat (λ c₂. (Write.stop c₂, last)) (Write.stuck, last) _
            (send_video_decode_acks-Ends s g print short b t.acknowledge c₁ acks v₁)
            (λ c₂ v₂.
              let (w, new_last) = send_heartbeat s g print print_pose last t c₂ in
              after_call Q b (λ c₃. (send_latest_pose s g print print_pose t c₃, new_last))
                (λ c₃. (Write.stop c₃, new_last)) (Write.stuck, new_last) w
                (send_heartbeat-After b last t c₂ beats v₂)
                (λ c₃ v₃. send_latest_pose-After b t c₃ reports v₃) (λ c₃ v₃. v₃))
            (λ c₂ v₂. v₂))
        (λ c₁ v₁. v₁)
    where
      Q : Write (Client s f g P) × ℤ → Type 0
      Q r = After b r.0

      beat : Client s f g P → Write (Client s f g P) × ℤ
      beat c₂ =
          let (w, new_last) = send_heartbeat s g print print_pose last t c₂ in
          elim w [
            | Write.stop c₃ ↦ (Write.stop c₃, new_last)
            | Write.stuck ↦ (Write.stuck, new_last)
            | Write.done c₃ ↦ (send_latest_pose s g print print_pose t c₃, new_last)
          ]

      acknowledged : Client s f g P → Write (Client s f g P) × ℤ
      acknowledged c₁ = elim (send_video_decode_acks s g print t.acknowledge c₁) [
        | Write.stop c₂ ↦ (Write.stop c₂, last)
        | Write.stuck ↦ (Write.stuck, last)
        | Write.done c₂ ↦ beat c₂
      ]

  -- The client that a loop leaves; no call runs out of fuel.
  abbrev Left : Option (Client s f g P) → Type 0
  Left none = ⊥
  Left (some c) = Sound c

  inner_loop-Left :
      (b : ℕ) (last : ℤ) (ticks : List Tick) (c : Client s f g P)
      → All (IsEnoughTick b) ticks
      → Good b c
      → Left (inner_loop s g print print_pose last ticks c)
  unfolding inner_loop
  inner_loop-Left b last [] c enough v = v.0
  inner_loop-Left b last (t ∷ ticks) c (enough, later) v =
      let (w, next) = transport_round s g print print_pose last t c in
      after_call Left b (inner_loop s g print print_pose next ticks) (λ c'. some c') none w
        (transport_round-After b last t c enough v)
        (λ c' u. inner_loop-Left b next ticks c' later u) (λ c' u. u)

  serve-Left :
      (a : Attempt s) (c : Client s f g P)
      → IsEnoughAttempt s a
      → Sound c
      → Left (serve s g print print_pose a c)
  unfolding serve
  serve-Left a c (greets, ticks) v =
      by_greeting (send_next s g a.greet hello (codes "client=quest;protocol=1") connected) (
        send_next-Stays s g b a.greet hello (codes "client=quest;protocol=1") connected greets
          (omega arith) (v, omega arith))
    where
      b : ℕ
      b = s.patience a.conn

      connected : Client s f g P
      connected = record c { conn = a.conn }

      loop : Client s f g P → Option (Client s f g P)
      loop c' = inner_loop s g print print_pose (a.connected_at -ℤ pos 1_000_000_000) a.ticks c'

      by_greeting :
          (w : Write (Client s f g P))
          → Stays s g b w
          → Left (elim w [ Write.done c' ↦ loop c' | Write.stop c' ↦ loop c' | Write.stuck ↦ none ])
      by_greeting (Write.done c') u = inner_loop-Left b _ a.ticks c' ticks u
      by_greeting (Write.stop c') u = inner_loop-Left b _ a.ticks c' ticks u
      by_greeting Write.stuck u = u

  -- A decoder that is whole, with its acknowledgements in order, is so after `transportLoop`, over
  -- any connections and whatever the hosts send; and every descriptor that `socket` gave is closed
  -- once, that of a refused connection too. The fuel of each call is more than the bytes of the
  -- largest packet and the interruptions of its connection, and a text of the client has at most 4096
  -- bytes; then the loop returns.
  pub transport_loop-LeavesSound :
      (attempts : List (Attempt s)) (c : Client s f g P) (closed : List ℕ)
      → All (IsEnoughAttempt s) attempts
      → IsSoundClient s g c
      → LeavesSound s g
          (opened s attempts closed)
          (transport_loop s g print print_pose attempts c closed)
  unfolding transport_loop connect_tcp
  transport_loop-LeavesSound [] c closed enough v = (v, refl)
  transport_loop-LeavesSound (a ∷ attempts) c closed (enough, later) v =
      by_socket a.connect.socket (not a.connect.is_address) (not a.connect.connected)
        (λ c' closed' u. transport_loop-LeavesSound attempts c' closed' later u)
    where
      Result : Type 0
      Result = Option (Client s f g P × List ℕ)

      Again : Type 0
      Again =
          (c' : Client s f g P) (closed' : List ℕ)
          → Sound c'
          → LeavesSound s g (opened s attempts closed')
              (transport_loop s g print print_pose attempts c' closed')

      served : ℕ → List ℕ → Option (Client s f g P) → Result
      served fd given_up o = elim o [
        | none ↦ none
        | some c' ↦ transport_loop s g print print_pose attempts c' (fd ∷ given_up ++ closed)
      ]

      next : Option ℕ × List ℕ → Result
      next (descriptor, given_up) = elim descriptor [
        | none ↦ transport_loop s g print print_pose attempts c (given_up ++ closed)
        | some fd ↦ served fd given_up (serve s g print print_pose a c)
      ]

      by_served :
          (fd : ℕ) (o : Option (Client s f g P))
          → Left o
          → Again
          → LeavesSound s g (opened s attempts (fd ∷ closed)) (served fd [] o)
      by_served fd none u again = absurd u
      by_served fd (some c') u again = again c' (fd ∷ closed) u

      by_socket :
          (o : Option ℕ) (p q : Bool)
          → Again
          → LeavesSound s g (opened s attempts (elim o [ none ↦ closed | some fd ↦ fd ∷ closed ])) (
              next (elim o [
                | none ↦ (none, [])
                | some fd ↦
                    if p then (none, fd ∷ []) else if q then (none, fd ∷ []) else (some fd, [])
              ]))
      by_socket none p q again = again c closed v
      by_socket (some fd) true q again = again c (fd ∷ closed) v
      by_socket (some fd) false true again = again c (fd ∷ closed) v
      by_socket (some fd) false false again =
          by_served fd (serve s g print print_pose a c) (serve-Left a c enough v) again
