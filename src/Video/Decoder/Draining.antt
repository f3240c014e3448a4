-- ===== src/Video/Decoder/Draining.antt =====
-- What `drainSurfaceOutput` does with the buffers that the codec gave out.
use mathlib.Core.Path.{subst}
use robo_vr.Base.{
  ◌∙◌, ℤ, pos_part, ℕ, zero, suc, ◌≤◌, ◌≡◌, ◌==◌, ◌⊎◌, inl, inr, refl, ap, sym, Bool, true, false,
  ◌&&◌, ltb, if◌then◌else◌, List, [], ◌∷◌, Option, none, some, map, All, arith,
}
use robo_vr.Video.Decoder.Codec.{
  Output, try_later, format_changed, output_failed, output, PendingOutput, collect_outputs,
  latest_render, release_outputs, drain_surface_output,
}

-- Some output of the list is to be rendered, with this frame and buffer.
abbrev pub Rendered : ℕ → ℕ → List PendingOutput → Type 0
Rendered frame index [] = ⊥
Rendered frame index (o ∷ os) =
    ((o.render ≡ true) × (o.frame_index ≡ frame) × (o.index ≡ index)) ⊎ Rendered frame index os

abbrev pub UpTo : ℕ → List PendingOutput → Type 0
UpTo frame os = All (λ o. o.render ≡ true → o.frame_index ≤ frame) os

-- The newest frame that can be rendered, with its buffer; none only if no frame can.
abbrev pub Latest : List PendingOutput → Option (ℕ × ℕ) → Type 0
Latest os none = All (λ o. o.render ≡ false) os
Latest os (some (frame, index)) = Rendered frame index os × UpTo frame os

abbrev Later : ℕ → ℕ → List PendingOutput → Option (ℕ × ℕ) → Type 0
Later f i os none = ⊥
Later f i os (some (frame, index)) =
    (f ≤ frame) × UpTo frame os × (((frame ≡ f) × (index ≡ i)) ⊎ Rendered frame index os)

Later-newer :
    (f i : ℕ) (o : PendingOutput) (os : List PendingOutput) (r : Option (ℕ × ℕ))
    → o.render ≡ true
    → f ≤ o.frame_index
    → Later o.frame_index o.index os r
    → Later f i (o ∷ os) r
Later-newer f i o os none e l h = h
Later-newer f i o os (some (frame, index)) e l (m, u, w) = (
  omega (arith, l, m),
  ((λ _. m), u),
  elim w [ inl (a, b) ↦ inr (inl (e, sym a, sym b)) | inr c ↦ inr (inr c) ],
)

Later-older :
    (f i : ℕ) (o : PendingOutput) (os : List PendingOutput) (r : Option (ℕ × ℕ))
    → (o.render ≡ true → o.frame_index ≤ f)
    → Later f i os r
    → Later f i (o ∷ os) r
Later-older f i o os none e h = h
Later-older f i o os (some (frame, index)) e (m, u, w) = (
  m,
  ((λ x. let y : o.frame_index ≤ f = e x in omega (arith, y, m)), u),
  elim w [ inl a ↦ inl a | inr c ↦ inr (inr c) ],
)

latest_render-Later :
    (f i : ℕ) (os : List PendingOutput) → Later f i os (latest_render (some (f, i)) os)
unfolding latest_render
latest_render-Later f i [] = (omega arith, tt, inl (refl, refl))
latest_render-Later f i (o ∷ os) =
    by_test (o.render && ltb f o.frame_index) refl (latest_render-Later o.frame_index o.index os)
      (latest_render-Later f i os)
  where
    by_test :
        (b : Bool)
        → o.render && ltb f o.frame_index ≡ b
        → Later o.frame_index o.index os (latest_render (some (o.frame_index, o.index)) os)
        → Later f i os (latest_render (some (f, i)) os)
        → Later f i
            (o ∷ os)
            (latest_render (if b then some (o.frame_index, o.index) else some (f, i)) os)
    by_test true e newer same = Later-newer f i o os _ (ground (arith, e)) (ground (arith, e)) newer
    by_test false e newer same = Later-older f i o os _ (λ x. ground (arith, e, x)) same

latest_render-Latest : (os : List PendingOutput) → Latest os (latest_render none os)
unfolding latest_render
latest_render-Latest [] = tt
latest_render-Latest (o ∷ os) = by_render o.render refl (latest_render-Latest os)
  where
    put : (r : Option (ℕ × ℕ)) → o.render ≡ false → Latest os r → Latest (o ∷ os) r
    put none e h = (e, h)
    put (some (frame, index)) e (m, u) = (inr m, ((λ x. absurd (ground (arith, e, x))), u))

    first :
        (r : Option (ℕ × ℕ))
        → o.render ≡ true
        → Later o.frame_index o.index os r
        → Latest (o ∷ os) r
    first none e h = absurd h
    first (some (frame, index)) e (m, u, w) =
        (elim w [ inl (a, b) ↦ inl (e, sym a, sym b) | inr c ↦ inr c ], ((λ _. m), u))

    by_render :
        (b : Bool)
        → o.render ≡ b
        → Latest os (latest_render none os)
        → Latest (o ∷ os) (latest_render (if b then some (o.frame_index, o.index) else none) os)
    by_render true e rest = first _ e (latest_render-Later o.frame_index o.index os)
    by_render false e rest = put _ e rest

release_outputs-map :
    (best : Option (ℕ × ℕ)) (os : List PendingOutput)
    → map (λ r. r.0) (release_outputs best os).0 ≡ map (λ o. o.index) os
unfolding release_outputs
release_outputs-map best [] = refl
release_outputs-map best (o ∷ os) = ap (λ xs. o.index ∷ xs) (release_outputs-map best os)

-- The flags with which the buffers are released, when `best` is to be rendered.
abbrev pub Flagged : Option (ℕ × ℕ) → List (ℕ × Bool) → Type 0
Flagged none released = All (λ r. r.1 ≡ false) released
Flagged (some (frame, index)) released = All (λ r. r.1 ≡ (r.0 == index)) released

release_outputs-Flagged :
    (best : Option (ℕ × ℕ)) (os : List PendingOutput) → Flagged best (release_outputs best os).0
unfolding release_outputs
release_outputs-Flagged none [] = tt
release_outputs-Flagged (some best) [] = tt
release_outputs-Flagged none (o ∷ os) = (refl, release_outputs-Flagged none os)
release_outputs-Flagged (some (frame, index)) (o ∷ os) =
    (refl, release_outputs-Flagged (some (frame, index)) os)

-- The buffers that the first calls of `dequeueOutputBuffer` give, up to a call that has none or fails.
abbrev pub buffers_given : ℕ → List Output → List (ℕ × ℤ × ℤ)
buffers_given zero answers = []
buffers_given (suc calls) [] = []
buffers_given (suc calls) (try_later ∷ answers) = []
buffers_given (suc calls) (output_failed ∷ answers) = []
buffers_given (suc calls) (format_changed format ∷ answers) = buffers_given calls answers
buffers_given (suc calls) (output index time size ∷ answers) =
    (index, time, size) ∷ buffers_given calls answers

-- A buffer as it waits for its release: it is rendered if it has data.
abbrev pub pending : ℕ × ℤ × ℤ → PendingOutput
pending (index, time, size) = record {
  index = index;
  frame_index = pos_part time;
  render = ltb 0 (pos_part size);
}

collect_outputs-buffers_given :
    (rounds : ℕ) (answers : List Output)
    → collect_outputs rounds answers ≡ map pending (buffers_given rounds answers)
unfolding collect_outputs
collect_outputs-buffers_given zero answers = refl
collect_outputs-buffers_given (suc rounds) [] = refl
collect_outputs-buffers_given (suc rounds) (try_later ∷ answers) = refl
collect_outputs-buffers_given (suc rounds) (output_failed ∷ answers) = refl
collect_outputs-buffers_given (suc rounds) (format_changed format ∷ answers) =
    collect_outputs-buffers_given rounds answers
collect_outputs-buffers_given (suc rounds) (output i t n ∷ answers) =
    ap (λ os. pending (i, t, n) ∷ os) (collect_outputs-buffers_given rounds answers)

map-pending :
    (buffers : List (ℕ × ℤ × ℤ)) → map (λ o. o.index) (map pending buffers) ≡ map (λ b. b.0) buffers
map-pending [] = refl
map-pending (b ∷ buffers) = ap (λ xs. b.0 ∷ xs) (map-pending buffers)

-- A pass gives every buffer that its at most 32 calls have taken from the codec back to it, once and in
-- order. It renders none but the buffer of the newest frame among those with data, which exists unless
-- no buffer has data.
pub drain_surface_output_lem :
    (codec : ℕ) (answers : List Output)
    → let buffers = buffers_given 32 answers in
      (map (λ r. r.0) (drain_surface_output (some codec) answers).0 ≡ map (λ b. b.0) buffers)
      × ((best : Option (ℕ × ℕ)) × Flagged best (drain_surface_output (some codec) answers).0
          × Latest (map pending buffers) best)
unfolding drain_surface_output
drain_surface_output_lem codec answers =
    let outputs = collect_outputs 32 answers in
    let same = collect_outputs-buffers_given 32 answers in
    (
      release_outputs-map _ outputs
          ∙ ap (map (λ o. o.index)) same
          ∙ map-pending (buffers_given 32 answers),
      (
        latest_render none outputs,
        release_outputs-Flagged _ outputs,
        subst (λ os. Latest os (latest_render none outputs)) same (latest_render-Latest outputs),
      ),
    )
