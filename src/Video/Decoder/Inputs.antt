-- ===== src/Video/Decoder/Inputs.antt =====
-- The access units that `decode` hands to the codecs.
use robo_vr.Base.{
  ℕ, ◌≡◌, ◌⊎◌, inl, inr, refl, ap, ◌∙◌, ◌==◌, ltb, ◌*◌, ◌%◌, ◌^◌, Bool, true, false, not, ◌&&◌,
  List, [], ◌∷◌, Option, none, some, if◌then◌else◌, take, ℤ,
}
use robo_vr.Protocol.Types.{VideoFrameHeader}
use robo_vr.Base.Map.{insert}
use robo_vr.Video.Display.{Display}
use robo_vr.Video.Decoder.State.{Millis, Decoder}
use robo_vr.Video.Decoder.Codec.{
  Dequeued, InputAnswers, try_again, failed, buffer, Queued, not_queued, queue_access_unit,
}
use robo_vr.Video.Decoder.Select.{select_surface, select_cpu, store_frames}
use robo_vr.Video.Decoder.Publish.{inc, measure, settle, publish_surface, publish_cpu, log_stats}
use robo_vr.Video.Decoder.Handles.{log_stats_clock, measure_latencies}
use robo_vr.Video.Decoder.Decode.{
  Answers, drained, with_input, queue_both, surface_path, cpu_path, ensure_started,
  restart_if_behind, decode,
}

-- A unit that is queued is the payload.
queue_access_unit_lem :
    (codec : Option ℕ) (payload : List ℕ) (size : ℕ) (a : InputAnswers)
    → ((queue_access_unit codec payload size a).result ≡ false)
      ⊎ ((queue_access_unit codec payload size a).input ≡ some (take size payload))
unfolding queue_access_unit
queue_access_unit_lem none payload size a = inl refl
queue_access_unit_lem (some codec) payload size a =
    by_answers (size == 0) a.dequeued a.input_size (λ n. ltb n size) a.queued
  where
    by_answers :
        (empty : Bool) (dequeued : Dequeued) (room : Option ℕ) (small : ℕ → Bool) (queued : Bool)
        → let q : Queued = if empty then not_queued [] else elim dequeued [
          | try_again ↦ not_queued []
          | failed ↦ not_queued []
          | buffer index ↦ elim room [
            | none ↦ not_queued (index ∷ [])
            | some n ↦
                if small n
                then not_queued (index ∷ [])
                else if queued
                then record { result = true; kept_buffers = []; input = some (take size payload) }
                else not_queued (index ∷ [])
          ]
        ] in
          (q.result ≡ false) ⊎ (q.input ≡ some (take size payload))
    by_answers true dequeued room small queued = inl refl
    by_answers false try_again room small queued = inl refl
    by_answers false failed room small queued = inl refl
    by_answers false (buffer index) none small queued = inl refl
    by_answers false (buffer index) (some n) small queued = by_room (small n) queued
      where
        by_room :
            (s queued : Bool)
            → let q : Queued =
                if s
                then not_queued (index ∷ [])
                else if queued
                then record { result = true; kept_buffers = []; input = some (take size payload) }
                else not_queued (index ∷ []) in
              (q.result ≡ false) ⊎ (q.input ≡ some (take size payload))
        by_room true queued = inl refl
        by_room false true = inr refl
        by_room false false = inl refl

module _ {f : Millis} where
  abbrev pub inputs : Decoder f → List (ℕ × List ℕ) × List (ℕ × List ℕ)
  inputs d = (d.left_inputs, d.right_inputs)

  log_stats-inputs : (now : ℤ) (d : Decoder f) → inputs (log_stats now d) ≡ inputs d
  log_stats-inputs now d = ap inputs (log_stats_clock now d).1

  measure-inputs : (k : ℕ) (now : ℤ) (d : Decoder f) → inputs (measure k now d) ≡ inputs d
  measure-inputs k now d = ap inputs (measure_latencies k now d).2

  -- Both codecs have got the payload that is theirs, as their newest unit.
  abbrev pub Fed : VideoFrameHeader → (left right : List ℕ) → Decoder f → Type 0
  Fed h left right e =
      (before : List (ℕ × List ℕ)) × (before' : List (ℕ × List ℕ)) × (e.left_inputs
        ≡ (h.frame_index, take h.left_payload_size left) ∷ before)
      × (e.right_inputs ≡ (h.frame_index, take h.right_payload_size right) ∷ before')

  queue_both_lem :
      (h : VideoFrameHeader) (left right : List ℕ) (a : Answers) (d : Decoder f)
      → ((queue_both h left right a d).1 ≡ false) ⊎ Fed h left right (queue_both h left right a d).0
  unfolding queue_both
  queue_both_lem h left right a d =
      by_results (queue_access_unit d.left_codec left h.left_payload_size a.left_input)
        (queue_access_unit d.right_codec right h.right_payload_size a.right_input)
        (queue_access_unit_lem d.left_codec left h.left_payload_size a.left_input)
        (queue_access_unit_lem d.right_codec right h.right_payload_size a.right_input)
    where
      by_results :
          (l r : Queued)
          → (l.result ≡ false) ⊎ (l.input ≡ some (take h.left_payload_size left))
          → (r.result ≡ false) ⊎ (r.input ≡ some (take h.right_payload_size right))
          → let fed : Decoder f = record d {
            left_inputs = with_input h.frame_index l.input d.left_inputs;
            right_inputs = with_input h.frame_index r.input d.right_inputs;
          } in
            let e : Decoder f × Bool =
              if l.result && r.result
              then (
                record fed {
                  queued_frames = inc fed.queued_frames;
                  receive_time_by_frame =
                      insert h.frame_index a.receive_time_ns fed.receive_time_by_frame;
                },
                true,
              )
              else (record fed { dropped_input_frames = inc fed.dropped_input_frames }, false) in
            (e.1 ≡ false) ⊎ Fed h left right e.0
      by_results l r p q = by_both l.result refl r.result refl p q
        where
          fed : Decoder f
          fed = record d {
            left_inputs = with_input h.frame_index l.input d.left_inputs;
            right_inputs = with_input h.frame_index r.input d.right_inputs;
          }

          by_both :
              (x : Bool)
              → l.result ≡ x
              → (y : Bool) → r.result ≡ y
              → (l.result ≡ false) ⊎ (l.input ≡ some (take h.left_payload_size left))
              → (r.result ≡ false) ⊎ (r.input ≡ some (take h.right_payload_size right))
              → let e : Decoder f × Bool =
                  if x && y
                  then (
                    record fed {
                      queued_frames = inc d.queued_frames;
                      receive_time_by_frame =
                          insert h.frame_index a.receive_time_ns d.receive_time_by_frame;
                    },
                    true,
                  )
                  else (record fed { dropped_input_frames = inc d.dropped_input_frames }, false) in
                (e.1 ≡ false) ⊎ Fed h left right e.0
          by_both false g y g' p q = inl refl
          by_both true g false g' p q = inl refl
          by_both true g true g' (inl refused) q = cc
          by_both true g true g' (inr copied) (inl refused) = cc
          by_both true g true g' (inr copied) (inr copied') = inr (
            d.left_inputs,
            d.right_inputs,
            ap (λ o. with_input h.frame_index o d.left_inputs) copied,
            ap (λ o. with_input h.frame_index o d.right_inputs) copied',
          )

  Fed-inputs :
      (h : VideoFrameHeader) (left right : List ℕ) (d e : Decoder f)
      → inputs e ≡ inputs d
      → Fed h left right d
      → Fed h left right e
  Fed-inputs h left right d e same (before, before', l, r) =
      (before, before', ap (λ x. x.0) same ∙ l, ap (λ x. x.1) same ∙ r)

module _ {f : Millis} {C : Type 0} where
  publish_surface-inputs :
      (k : ℕ) (now : ℤ) (d : Decoder f) (s : Display C)
      → inputs (publish_surface k now d s).0 ≡ inputs d
  unfolding publish_surface settle
  publish_surface-inputs k now d s =
      measure-inputs k now (record d { decoded_frames = inc d.decoded_frames })

  publish_cpu-inputs :
      (k : ℕ) (now : ℤ) (d : Decoder f) (s : Display C)
      → inputs (publish_cpu k now d s).0 ≡ inputs d
  unfolding publish_cpu settle
  publish_cpu-inputs k now d s =
      measure-inputs k now (record d { decoded_frames = inc d.decoded_frames })

  -- The end of both paths: a frame is chosen and published, or none is.
  published-inputs :
      (time : ℤ) (publish : ℕ → Decoder f × Display C) (d : Decoder f) (s : Display C)
      → ((k : ℕ) → inputs (publish k).0 ≡ inputs d)
      → (c : Option ℕ)
      → let e : Decoder f × Display C = elim c [
        | none ↦ (log_stats time d, s)
        | some k ↦ (log_stats time (publish k).0, (publish k).1)
      ] in
        inputs e.0 ≡ inputs d
  published-inputs time publish d s h none = log_stats-inputs time d
  published-inputs time publish d s h (some k) = log_stats-inputs time (publish k).0 ∙ h k

  surface_path-inputs :
      (a : Answers) (d : Decoder f) (s : Display C) → inputs (surface_path a d s).0 ≡ inputs d
  unfolding surface_path drained
  surface_path-inputs a d s =
      let d₁ : Decoder f = drained a d in
      published-inputs a.stats_time_ns (λ k. publish_surface k a.publish_time_ns d₁ s) d₁ s
        (λ k. publish_surface-inputs k a.publish_time_ns d₁ s)
        (select_surface d₁.has_published_frame d₁.last_published_frame_index d₁.surface_right_ready
          none d₁.surface_left_ready)

  cpu_path-inputs :
      (a : Answers) (d : Decoder f) (s : Display C) → inputs (cpu_path a d s).0 ≡ inputs d
  unfolding cpu_path
  cpu_path-inputs a d s =
      let d₁ : Decoder f = record d {
        decoded_left_by_frame = store_frames a.left_frames d.decoded_left_by_frame;
        decoded_right_by_frame = store_frames a.right_frames d.decoded_right_by_frame;
      } in
      published-inputs a.stats_time_ns (λ k. publish_cpu k a.publish_time_ns d₁ s) d₁ s
        (λ k. publish_cpu-inputs k a.publish_time_ns d₁ s)
        (select_cpu (d.width * d.height * 4 % 2 ^ 64) d₁.has_published_frame
          d₁.last_published_frame_index d₁.decoded_right_by_frame none d₁.decoded_left_by_frame)

  -- If `decode` returns true, both codecs have got the payload of their eye, with the frame's index.
  pub decode_inputs :
      (h : VideoFrameHeader) (left right : List ℕ) (a : Answers) (d : Decoder f) (s : Display C)
      → ((decode h left right a d s).2 ≡ false) ⊎ Fed h left right (decode h left right a d s).0
  unfolding decode
  decode_inputs h left right a d s =
      let r = restart_if_behind h d s in
      by_ensured (ensure_started h a (record r.0 { received_frames = inc r.0.received_frames }) r.1)
    where
      by_output :
          (q : Decoder f × Bool) (t : Display C) (b : Bool)
          → (q.1 ≡ false) ⊎ Fed h left right q.0
          → let p : Decoder f × Display C = if b then surface_path a q.0 t else cpu_path a q.0 t in
            (q.1 ≡ false) ⊎ Fed h left right p.0
      by_output q t b (inl refused) = inl refused
      by_output q t true (inr fed) =
          inr
            (Fed-inputs h left right q.0 (surface_path a q.0 t).0 (surface_path-inputs a q.0 t) fed)
      by_output q t false (inr fed) =
          inr (Fed-inputs h left right q.0 (cpu_path a q.0 t).0 (cpu_path-inputs a q.0 t) fed)

      by_ensured :
          (x : Decoder f × Display C × Bool)
          → let e : Decoder f × Display C × Bool =
              if not x.2
              then (x.0, x.1, false)
              else let q = queue_both h left right a x.0 in
                let p : Decoder f × Display C =
                  if q.0.surface_output then surface_path a q.0 x.1 else cpu_path a q.0 x.1 in
                (p.0, p.1, q.1) in
            (e.2 ≡ false) ⊎ Fed h left right e.0
      by_ensured (d₃, t, false) = inl refl
      by_ensured (d₃, t, true) =
          let q = queue_both h left right a d₃ in
          by_output q t q.0.surface_output (queue_both_lem h left right a d₃)
