-- ===== src/Video/Decoder/OutputDrain.antt =====
-- `drainOutput` returns, and releases each buffer that it takes.
use robo_vr.Base.{
  ℕ, zero, suc, ◌%◌, ◌^◌, ◌<◌, to_size, ◌+◌, ◌*◌, ◌≤◌, ◌≡◌, refl, ap, sym, ◌∙◌, ◌==◌, leb,
  if◌then◌else◌, Bool, true, false, ◌&&◌, ◌||◌, List, [], ◌∷◌, ◌++◌, append_assoc, append-nil,
  Option, none, some, length, All, All-snoc, arith, ℤ,
}
use mathlib.Core.Path.{subst}
use robo_vr.Video.Decoder.OutputReads.{read_frame-Gives, product_small}
use robo_vr.Video.Decoder.State.{Millis, Decoder}
use robo_vr.Video.Decoder.Select.{DecodedEyeFrame}
use robo_vr.Video.Decoder.Codec.{is_positive, found_or, update_layout}
use robo_vr.Video.Decoder.Output.{
  update_output_format, OutputBuffer, YuvOutput, try_later, output_failed, format_changed, output,
  positive_or, y_plane_size, pushed, read_frame, Drained, planes, release, push_frame, take_output,
  drain_rounds, drain_output,
}

-- A value that is used holds the `n` columns or rows of the frame, and is not negative.
abbrev pub HoldsAll : ℤ → ℕ → Type 0
HoldsAll z n = (n ≤ to_size (positive_or z n)) × (to_size (positive_or z n) < 2 ^ 31)

abbrev pub HoldsFrame : {f : Millis} → Decoder f → Type 0
HoldsFrame d = HoldsAll d.output_stride d.width × HoldsAll d.output_slice_height d.height

abbrev FoundHoldsAll : Option ℤ → ℕ → Type 0
FoundHoldsAll none n = Unit {0}
FoundHoldsAll (some z) n = HoldsAll z n

-- The formats that the codec reports have rows and columns for the frame, where they name any, and the
-- offsets of its buffers are those of an `int32_t`.
abbrev pub ReportsRoom : ℕ → ℕ → List YuvOutput → Type 0
ReportsRoom width height [] = Unit {0}
ReportsRoom width height (format_changed (some format) ∷ answers) =
    FoundHoldsAll format.stride width
    × FoundHoldsAll format.slice_height height
    × ReportsRoom width height answers
ReportsRoom width height (output b ∷ answers) =
    (b.offset < 2 ^ 31) × ReportsRoom width height answers
ReportsRoom width height (_ ∷ answers) = ReportsRoom width height answers

-- The buffers that `rounds` rounds take from the codec.
abbrev pub dequeued : ℕ → List YuvOutput → List (ℕ × Bool)
dequeued zero answers = []
dequeued (suc rounds) [] = []
dequeued (suc rounds) (try_later ∷ answers) = []
dequeued (suc rounds) (output_failed ∷ answers) = []
dequeued (suc rounds) (format_changed format ∷ answers) = dequeued rounds answers
dequeued (suc rounds) (output b ∷ answers) = (b.index, false) ∷ dequeued rounds answers

-- Every frame has four bytes for each pixel.
abbrev pub AreWhole : ℕ → ℕ → List DecodedEyeFrame → Type 0
AreWhole width height = All (λ frame. length frame.rgba ≡ height * (width * 4))

found_or-HoldsAll :
    (o : Option ℤ) (old : ℤ) (n : ℕ)
    → FoundHoldsAll o n
    → HoldsAll old n
    → HoldsAll (found_or o old) n
found_or-HoldsAll none old n h k = k
found_or-HoldsAll (some z) old n h k = h

module _ {f : Millis} where
  -- The frame that `take_output` adds is whole, and the buffer is released.
  abbrev Taken : OutputBuffer → Drained f → Option (Drained f) → Type 0
  Taken b r o =
      (r' : Drained f) × (o ≡ some r')
      × (r'.decoder ≡ r.decoder)
      × (r'.released ≡ r.released ++ (b.index, false) ∷ [])
      × (AreWhole r.decoder.width r.decoder.height r.frames
          → AreWhole r.decoder.width r.decoder.height r'.frames)

  take_output-Taken :
      (b : OutputBuffer) (r : Drained f)
      → HoldsFrame r.decoder
      → b.offset < 2 ^ 31
      → Taken b r (take_output b r)
  unfolding take_output
  take_output-Taken b r ((wide, wide'), (high, high')) near = by_bytes b.bytes
    where
      w : ℕ
      w = r.decoder.width

      h : ℕ
      h = r.decoder.height

      kept : Taken b r (some (release b.index r))
      kept = (release b.index r, refl, refl, refl, λ whole. whole)

      by_test :
          (bytes : List ℕ) (a : Bool)
          → let p = planes r.decoder bytes b.offset in
            (is_positive b.size && leb ((b.offset + y_plane_size p) % 2 ^ 64) (length bytes)) ≡ a
            → Taken b r (if a then pushed b r (read_frame p w h) else some (release b.index r))
      by_test bytes true e =
          let p = planes r.decoder bytes b.offset in
          let size = product_small p.stride p.slice_height wide' high' in
          let fits : b.offset + y_plane_size p ≤ length bytes = ground (arith, e, size, near) in
          let (pixels, g, n) = read_frame-Gives p w h (fits, wide, high, (wide', high', near)) in
          (
            release b.index (push_frame b pixels r),
            ap (pushed b r) g,
            refl,
            refl,
            λ whole. All-snoc _ r.frames _ whole n,
          )
      by_test bytes false e = kept

      by_bytes :
          (o : Option (List ℕ))
          → Taken b r (elim o [
            | none ↦ some (release b.index r)
            | some bytes ↦
                let p = planes r.decoder bytes b.offset in
                if is_positive b.size && leb ((b.offset + y_plane_size p) % 2 ^ 64) (length bytes)
                then pushed b r (read_frame p w h)
                else some (release b.index r)
          ])
      by_bytes none = kept
      by_bytes (some bytes) = by_test bytes _ refl

  abbrev Finished : ℕ → ℕ → List (ℕ × Bool) → Drained f → Option (Drained f) → Type 0
  Finished w h buffers r o =
      (r' : Drained f) × (o ≡ some r')
      × (r'.released ≡ r.released ++ buffers)
      × (AreWhole w h r.frames → AreWhole w h r'.frames)

  drain_rounds-Finished :
      (rounds : ℕ) (answers : List YuvOutput) (r : Drained f)
      → HoldsFrame r.decoder
      → ReportsRoom r.decoder.width r.decoder.height answers
      → Finished r.decoder.width r.decoder.height
          (dequeued rounds answers)
          r
          (drain_rounds rounds answers r)
  unfolding drain_rounds update_output_format update_layout
  drain_rounds-Finished zero answers r h k = (r, refl, sym (append-nil r.released), λ w. w)
  drain_rounds-Finished (suc rounds) [] r h k = (r, refl, sym (append-nil r.released), λ w. w)
  drain_rounds-Finished (suc rounds) (try_later ∷ answers) r h k =
      (r, refl, sym (append-nil r.released), λ w. w)
  drain_rounds-Finished (suc rounds) (output_failed ∷ answers) r h k =
      (r, refl, sym (append-nil r.released), λ w. w)
  drain_rounds-Finished (suc rounds) (format_changed none ∷ answers) r h k =
      drain_rounds-Finished rounds answers r h k
  drain_rounds-Finished (suc rounds) (format_changed (some format) ∷ answers) r (a, b) (c, d, k) =
      let m = record r { decoder = update_output_format (some format) r.decoder } in
      let wide = found_or-HoldsAll format.stride r.decoder.output_stride r.decoder.width c a in
      let high =
        found_or-HoldsAll format.slice_height r.decoder.output_slice_height r.decoder.height d b in
      drain_rounds-Finished rounds answers m (wide, high) k
  drain_rounds-Finished (suc rounds) (output b ∷ answers) r h (near, k) =
      let (r', e, same, released, keeps) = take_output-Taken b r h near in
      let (h', k') : HoldsFrame r'.decoder
          × ReportsRoom r'.decoder.width r'.decoder.height answers =
        subst (λ d. HoldsFrame d × ReportsRoom d.width d.height answers) (sym same) (h, k) in
      let (r'', e', rest, keeps') =
        subst
          (λ d.
            Finished d.width d.height (dequeued rounds answers) r' (drain_rounds rounds answers r'))
          same (drain_rounds-Finished rounds answers r' h' k') in
      (
        r'',
        ap (λ o. elim o [ none ↦ none | some x ↦ drain_rounds rounds answers x ]) e ∙ e',
        rest
            ∙ ap (λ x. x ++ dequeued rounds answers) released
            ∙ append_assoc r.released ((b.index, false) ∷ []) (dequeued rounds answers),
        λ whole. keeps' (keeps whole),
      )

  -- While the strides and slice heights that are used hold the frame, are below 2^31 and so are the
  -- offsets of the buffers, which are `int32_t`, `drainOutput` reads no byte
  -- outside the buffers: it returns, every frame that it pushes has four bytes for each pixel, and
  -- each buffer that it took from the codec is handed back once, not to be rendered.
  pub drain_output_lem :
      (codec : ℕ) (answers : List YuvOutput) (d : Decoder f)
      → 1 ≤ d.width
      → 1 ≤ d.height
      → HoldsFrame d
      → ReportsRoom d.width d.height answers
      → (r : Drained f) × (drain_output (some codec) answers d ≡ some r)
        × AreWhole d.width d.height r.frames
        × (r.released ≡ dequeued 4 answers)
  unfolding drain_output
  drain_output_lem codec answers d w h room reports =
      let (r, e, released, whole) = drain_rounds-Finished 4 answers fresh room reports in
      let sized : (d.width == 0 || d.height == 0) ≡ false = ground (arith, w, h) in
      (
        r,
        ap (λ b. if b then some fresh else drain_rounds 4 answers fresh) sized ∙ e,
        whole tt,
        released,
      )
    where
      fresh : Drained f
      fresh = record { decoder = d; frames = []; released = [] }
