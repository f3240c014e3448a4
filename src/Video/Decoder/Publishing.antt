-- ===== src/Video/Decoder/Publishing.antt =====
-- What one pass of the surface path of `decode` publishes, and what it remembers of it.
use robo_vr.Base.{
  ℕ, ◌<◌, ◌≤◌, ◌%◌, ◌^◌, ◌≡◌, refl, sym, ap, ◌∙◌, Bool, true, leb, List, [], ◌∷◌, ◌++◌, Option,
  none, some, arith, map, ℤ,
}
use mathlib.Core.List.{map-append}
use mathlib.Core.Path.{subst}
use robo_vr.Base.Map.{lookup, erase_if, lookup-erase_if}
use robo_vr.Video.Display.{Display, publish_stereo_codec_frame}
use robo_vr.Video.Decoder.State.{Millis, Decoder}
use robo_vr.Video.Decoder.Select.{select_surface}
use robo_vr.Video.Decoder.Publish.{inc, settle, publish_surface, log_stats}
use robo_vr.Video.Decoder.Decode.{Answers, drained, surface_path}
use robo_vr.Video.Decoder.Handles.{progress, log_stats_clock, measure_latencies}
use robo_vr.Video.Decoder.Newest.{Newest, IsCandidate, select_surface_lem}

module _ {f : Millis} where
  -- The frames acknowledged and not yet sent.
  abbrev pub ack_frames : Decoder f → List ℕ
  ack_frames d = map (λ ack. ack.frame_index) d.pending_acks

module _ {f : Millis} {C : Type 0} where
  -- The frame `k` has been published from `d` and `s`.
  pub record IsPublished (k : ℕ) (d e : Decoder f) (s t : Display C) : Type 0 where
    pub remembered : e.last_published_frame_index ≡ k
    pub marked : e.has_published_frame ≡ true
    pub acknowledged : ack_frames e ≡ ack_frames d ++ k ∷ []
    pub counted : e.decoded_frames ≡ inc d.decoded_frames
    pub shown : t ≡ publish_stereo_codec_frame (k % 2 ^ 32) s
    pub left_forgotten : (j : ℕ) → j ≤ k → lookup j e.surface_left_ready ≡ none
    pub right_forgotten : (j : ℕ) → j ≤ k → lookup j e.surface_right_ready ≡ none
    pub left_kept : (j : ℕ) → k < j → lookup j e.surface_left_ready ≡ lookup j d.surface_left_ready
    pub right_kept :
        (j : ℕ) → k < j → lookup j e.surface_right_ready ≡ lookup j d.surface_right_ready

  abbrev pub Outcome : Option ℕ → (d e : Decoder f) → (s t : Display C) → Type 0
  Outcome none d e s t = (t ≡ s) × (progress e ≡ progress d) × (e.decoded_frames ≡ d.decoded_frames)
  Outcome (some k) d e s t = IsPublished k d e s t

  log_stats-Outcome :
      (now : ℤ) (c : Option ℕ) (d e : Decoder f) (s t : Display C)
      → Outcome c d e s t
      → Outcome c d (log_stats now e) s t
  log_stats-Outcome now c d e s t o =
      let (time, eq) = log_stats_clock now e in
      subst (λ x. Outcome c d x s t) (sym eq) (by_choice c o time)
    where
      by_choice :
          (c : Option ℕ)
          → Outcome c d e s t
          → (time : ℤ) → Outcome c d (record e { last_stats_time_ns = time }) s t
      by_choice none o time = o
      by_choice (some k) o time = record {
        remembered = o.remembered;
        marked = o.marked;
        acknowledged = o.acknowledged;
        counted = o.counted;
        shown = o.shown;
        left_forgotten = o.left_forgotten;
        right_forgotten = o.right_forgotten;
        left_kept = o.left_kept;
        right_kept = o.right_kept;
      }

  publish_surface-IsPublished :
      (k : ℕ) (now : ℤ) (d : Decoder f) (s : Display C)
      → IsPublished k d (publish_surface k now d s).0 s (publish_surface k now d s).1
  unfolding publish_surface settle
  publish_surface-IsPublished k now d s =
      let d₀ : Decoder f = record d { decoded_frames = inc d.decoded_frames } in
      let (latest, sum, eq) = measure_latencies k now d₀ in
      let d₁ : Decoder f = record d₀ { latest_latency_ms = latest; latency_sum_ms = sum } in
      record {
        remembered = refl;
        marked = refl;
        acknowledged =
            map-append (λ ack. ack.frame_index) _ _ ∙ ap (λ x. ack_frames x ++ k ∷ []) eq;
        counted = ap (λ x. x.decoded_frames) eq;
        shown = refl;
        left_forgotten = λ j h. forgotten j _ h;
        right_forgotten = λ j h. forgotten j _ h;
        left_kept = λ j h. kept j _ h ∙ ap (λ x. lookup j x.surface_left_ready) eq;
        right_kept = λ j h. kept j _ h ∙ ap (λ x. lookup j x.surface_right_ready) eq;
      }
    where
      forgotten :
          (j : ℕ) (m : List (ℕ × Bool)) → j ≤ k → lookup j (erase_if (λ i. leb i k) m) ≡ none
      forgotten j m h = ground (arith, lookup-erase_if (λ i. leb i k) j m)

      kept :
          (j : ℕ) (m : List (ℕ × Bool)) → k < j → lookup j (erase_if (λ i. leb i k) m) ≡ lookup j m
      kept j m h = ground (arith, lookup-erase_if (λ i. leb i k) j m)

  -- One pass publishes the newest frame that both codecs have rendered and that comes after the last
  -- one published, acknowledges it once and forgets every frame up to it; with no such frame it
  -- changes neither what is shown nor what was published.
  pub surface_path_lem :
      (a : Answers) (d : Decoder f) (s : Display C)
      → (c : Option ℕ) × Newest
          (IsCandidate d.has_published_frame d.last_published_frame_index
            (drained a d).surface_left_ready
            (drained a d).surface_right_ready)
          c
        × Outcome c (drained a d) (surface_path a d s).0 s (surface_path a d s).1
  unfolding surface_path drained
  surface_path_lem a d s =
      let has = d.has_published_frame in
      let last = d.last_published_frame_index in
      let right = (drained a d).surface_right_ready in
      let left = (drained a d).surface_left_ready in
      let c = select_surface has last right none left in
      (c, select_surface_lem has last right left, by_choice c)
    where
      by_choice :
          (c : Option ℕ)
          → let e : Decoder f × Display C = elim c [
            | none ↦ (log_stats a.stats_time_ns (drained a d), s)
            | some k ↦
                let p = publish_surface k a.publish_time_ns (drained a d) s in
                (log_stats a.stats_time_ns p.0, p.1)
          ] in
            Outcome c (drained a d) e.0 s e.1
      by_choice none = log_stats-Outcome _ none (drained a d) (drained a d) s s (refl, refl, refl)
      by_choice (some k) =
          log_stats-Outcome _ (some k) (drained a d) _ s _
            (publish_surface-IsPublished k a.publish_time_ns (drained a d) s)
