-- ===== src/Host/Pacing.antt =====
-- The video thread of `main` in host_bridge/tools/host_bridge_demo.cpp, one round at a time. Times are
-- nanoseconds of the steady clock; each reading of a clock is an argument, and so is the result of
-- `server.send`. What the sleeps do is in the next round's reading.
use robo_vr.Base.{
  ℕ, ◌+◌, ◌-◌, ◌*◌, ◌/◌, ◌%◌, ◌^◌, ◌≤◌, ◌<◌, ◌≡◌, ◌⊎◌, ltb, if◌then◌else◌, Bool, true, false, ◌&&◌,
  some, ℤ, arith,
}
use robo_vr.Base.Map.{lookup, lookup-insert}
use robo_vr.Video.Decoder.State.{Millis}
use robo_vr.Host.Stats.{VideoStats, record_send}

pub record Pacer : Type 0 where
  pub video_frame : ℕ
  pub next_frame_time : ℕ
  pub started_streaming : Bool

-- A thread that is late by more than a frame skips the frames that it has missed.
unfoldable pub skip_missed : ℕ → ℕ → Pacer → Pacer
skip_missed frame_interval now p =
    let missed_frames = (now - p.next_frame_time) / frame_interval in
    if p.started_streaming && ltb (p.next_frame_time + frame_interval) now
    then (record p {
      video_frame = (p.video_frame + missed_frames) % 2 ^ 64;
      next_frame_time = p.next_frame_time + frame_interval * missed_frames;
    })
    else p

-- A thread that is ahead of the acknowledgements falls back to the third frame behind the latest.
unfoldable pub fall_back : {f : Millis} → VideoStats f → ℕ → Pacer → Pacer
fall_back st now p =
    if st.has_ack && ltb ((st.latest_ack_frame + 3) % 2 ^ 64) p.video_frame
    then (record p { video_frame = (st.latest_ack_frame + 3) % 2 ^ 64; next_frame_time = now })
    else p

-- The frame that the round sends is the `video_frame` of this.
unfoldable pub choose_frame : {f : Millis} → ℕ → ℕ → ℕ → VideoStats f → Pacer → Pacer
unfolding skip_missed fall_back
choose_frame frame_interval now later st p = fall_back st later (skip_missed frame_interval now p)

-- What follows `server.send`.
unfoldable pub after_send :
    {f : Millis} → ℕ → Bool → ℕ → ℤ → VideoStats f → Pacer → VideoStats f × Pacer
unfolding record_send
after_send frame_interval false now sent_ns st p =
    (st, record p { started_streaming = false; next_frame_time = now })
after_send frame_interval true now sent_ns st p =
    let next_frame_time = if p.started_streaming then p.next_frame_time else now in
    (
      record_send p.video_frame sent_ns st,
      record {
        video_frame = (p.video_frame + 1) % 2 ^ 64;
        next_frame_time = next_frame_time + frame_interval;
        started_streaming = true;
      },
    )

-- If the number three behind the latest acknowledged frame fits 64 bits: once there is an
-- acknowledged frame, a round sends a frame at most three ahead of it; and the frame is the next
-- one in turn, one later by the frames missed, or exactly three ahead.
pub choose_frame_lem :
    {f : Millis}
    → (frame_interval now later : ℕ) (st : VideoStats f) (p : Pacer)
    → st.latest_ack_frame + 3 < 2 ^ 64
    → let c = (choose_frame frame_interval now later st p).video_frame in
      (st.has_ack ≡ true → c ≤ st.latest_ack_frame + 3)
      × ((c ≡ p.video_frame)
          ⊎ ((c ≡ (p.video_frame + (now - p.next_frame_time) / frame_interval) % 2 ^ 64)
              ⊎ (c ≡ st.latest_ack_frame + 3)))
unfolding choose_frame
choose_frame_lem frame_interval now later st p small = ground arith

-- After a frame has been sent, its time is on record for its acknowledgement, the next frame is
-- the one in turn, and on a stream that had started it is due one interval later.
pub after_send_lem :
    {f : Millis}
    → (frame_interval now : ℕ) (sent_ns : ℤ) (st : VideoStats f) (p : Pacer)
    → let e = after_send frame_interval true now sent_ns st p in
      (lookup p.video_frame e.0.send_time_ns ≡ some sent_ns)
      × (e.1.video_frame ≡ (p.video_frame + 1) % 2 ^ 64)
      × (p.started_streaming ≡ true → e.1.next_frame_time ≡ p.next_frame_time + frame_interval)
unfolding after_send
after_send_lem frame_interval now sent_ns st p =
    ground (arith, lookup-insert p.video_frame p.video_frame sent_ns st.send_time_ns)
