-- ===== src/Session.antt =====
-- `OpenXrApp::pollEvents` and a round of `run` of quest_client/app/src/main/cpp/openxr_app.cpp. The
-- events are the runtime's, and so is the answer of `xrBeginSession`; `begun` and `ended` count the
-- sessions that it began and the calls of `xrEndSession`.
use robo_vr.Base.{ℕ, ◌+◌, ◌≡◌, Bool, true, false, ◌&&◌, not, if◌then◌else◌, List, [], ◌∷◌, arith}

pub data SessionState : Type 0 where
  unknown idle ready synchronized visible focused stopping loss_pending exiting : SessionState

-- The events, with the answer of `xrBeginSession` for a change to `ready`.
pub data Event : Type 0 where
  state_changed : SessionState → Bool → Event
  instance_loss_pending : Event
  refresh_rate_changed : Event
  other_event : Event

pub record Session : Type 0 where
  pub session_state : SessionState
  pub session_running : Bool
  pub exit_render_loop : Bool
  pub begun : ℕ
  pub ended : ℕ

-- What is done for a state beyond recording it.
unfoldable pub enter : SessionState → Bool → Session → Session
enter ready begins s = record s {
  session_running = begins;
  begun = if begins then s.begun + 1 else s.begun;
}
enter stopping begins s = record s { session_running = false; ended = s.ended + 1 }
enter exiting begins s = record s { exit_render_loop = true }
enter loss_pending begins s = record s { exit_render_loop = true }
enter unknown begins s = s
enter idle begins s = s
enter synchronized begins s = s
enter visible begins s = s
enter focused begins s = s

unfoldable pub handle_event : Event → Session → Session
unfolding enter
handle_event (state_changed state begins) s =
    enter state begins (record s { session_state = state })
handle_event instance_loss_pending s = record s { exit_render_loop = true }
handle_event refresh_rate_changed s = s
handle_event other_event s = s

unfoldable pub poll_events : List Event → Session → Session
unfolding handle_event
poll_events [] s = s
poll_events (e ∷ es) s = poll_events es (handle_event e s)

-- One round of the loop of `run`, for what `g_running` reads: the session behind it and whether it
-- rendered a frame; a loop that ends renders none.
unfoldable pub run_round : Bool → List Event → Session → Session × Bool
unfolding poll_events
run_round g_running events s =
    if g_running && not s.exit_render_loop
    then (poll_events events s, (poll_events events s).session_running)
    else (s, false)

-- What OpenXR documents of the order of its events: a session becomes ready only while none is begun,
-- and is told to stop only while one is.
abbrev pub Allowed : Event → Session → Type 0
Allowed (state_changed ready begins) s = s.begun ≡ s.ended
Allowed (state_changed stopping begins) s = s.begun ≡ s.ended + 1
Allowed (state_changed unknown begins) s = Unit {0}
Allowed (state_changed idle begins) s = Unit {0}
Allowed (state_changed synchronized begins) s = Unit {0}
Allowed (state_changed visible begins) s = Unit {0}
Allowed (state_changed focused begins) s = Unit {0}
Allowed (state_changed loss_pending begins) s = Unit {0}
Allowed (state_changed exiting begins) s = Unit {0}
Allowed instance_loss_pending s = Unit {0}
Allowed refresh_rate_changed s = Unit {0}
Allowed other_event s = Unit {0}

abbrev pub AllAllowed : List Event → Session → Type 0
AllAllowed [] s = Unit {0}
AllAllowed (e ∷ es) s = Allowed e s × AllAllowed es (handle_event e s)

-- The flag says whether a session is begun and not ended.
abbrev pub IsPaired : Session → Type 0
IsPaired s = s.begun ≡ s.ended + (if s.session_running then 1 else 0)

handle_event-IsPaired :
    (e : Event) (s : Session) → IsPaired s → Allowed e s → IsPaired (handle_event e s)
unfolding handle_event
handle_event-IsPaired (state_changed ready true) s p a = omega (arith, a)
handle_event-IsPaired (state_changed ready false) s p a = omega (arith, a)
handle_event-IsPaired (state_changed stopping begins) s p a = omega (arith, a)
handle_event-IsPaired (state_changed unknown begins) s p a = p
handle_event-IsPaired (state_changed idle begins) s p a = p
handle_event-IsPaired (state_changed synchronized begins) s p a = p
handle_event-IsPaired (state_changed visible begins) s p a = p
handle_event-IsPaired (state_changed focused begins) s p a = p
handle_event-IsPaired (state_changed loss_pending begins) s p a = p
handle_event-IsPaired (state_changed exiting begins) s p a = p
handle_event-IsPaired instance_loss_pending s p a = p
handle_event-IsPaired refresh_rate_changed s p a = p
handle_event-IsPaired other_event s p a = p

poll_events-IsPaired :
    (es : List Event) (s : Session) → IsPaired s → AllAllowed es s → IsPaired (poll_events es s)
unfolding poll_events
poll_events-IsPaired [] s p a = p
poll_events-IsPaired (e ∷ es) s p (a, rest) =
    poll_events-IsPaired es (handle_event e s) (handle_event-IsPaired e s p a) rest

-- Over any events in the order that OpenXR documents, a round of `run` keeps `session_running_` true
-- exactly while a session is begun and not ended, and renders only in such a session.
pub run_round-IsPaired :
    (g_running : Bool) (es : List Event) (s : Session)
    → IsPaired s
    → AllAllowed es s
    → let e = run_round g_running es s in IsPaired e.0 × (e.1 ≡ true → e.0.begun ≡ e.0.ended + 1)
unfolding run_round
run_round-IsPaired g_running es s p a = by_test (g_running && not s.exit_render_loop)
  where
    q : IsPaired (poll_events es s)
    q = poll_events-IsPaired es s p a

    in_session : (b : Bool) (m n : ℕ) → m ≡ n + (if b then 1 else 0) → b ≡ true → m ≡ n + 1
    in_session true m n h e = h
    in_session false m n h e = cc

    by_test :
        (b : Bool)
        → let e : Session × Bool =
            if b then (poll_events es s, (poll_events es s).session_running) else (s, false) in
          IsPaired e.0 × (e.1 ≡ true → e.0.begun ≡ e.0.ended + 1)
    by_test true = (q, in_session _ _ _ q)
    by_test false = (p, λ h. cc)
