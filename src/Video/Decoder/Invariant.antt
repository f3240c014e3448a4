-- ===== src/Video/Decoder/Invariant.antt =====
-- What holds of `H264AnnexBDecoder` and its window references between calls.
use robo_vr.Base.{
  ℕ, ◌+◌, ◌≡◌, refl, sym, ap, ◌∙◌, Bool, true, false, ◌&&◌, ◌||◌, ltb, ◌%◌, ◌^◌, List, [], ◌∷◌,
  Option, none, some, ◌==◌, ==_refl, arith, if◌then◌else◌,
}
use robo_vr.Protocol.Types.{VideoFrameHeader}
use robo_vr.Video.Display.{Display, acquire_stereo_codec_surfaces, StereoCodecSurfaces}
use robo_vr.Video.Decoder.State.{Millis, Decoder, stop}
use robo_vr.Video.Decoder.Codec.{create_h264_decoder}
use robo_vr.Video.Decoder.Handles.{handles}
use robo_vr.Video.Decoder.Decode.{
  Answers, open_codecs, restart, is_some, is_started, ensure_started, restart_if_behind,
}

-- The references that the decoder's window fields stand for, as `acquire` takes them.
abbrev pub references : Option ℕ → Option ℕ → List ℕ
references (some l) (some r) = r ∷ l ∷ []
references (some l) none = l ∷ []
references none (some r) = r ∷ []
references none none = []

module _ {f : Millis} {C : Type 0} where
  -- Either everything is in place, the surfaces included, or nothing is; and the references held on
  -- windows are those of the fields.
  pub record IsValid (d : Decoder f) (s : Display C) : Type 0 where
    pub both_or_none : is_some d.left_codec ≡ is_some d.right_codec
    pub started_output : is_some d.left_codec ≡ d.surface_output
    pub started_left_window : is_some d.left_codec ≡ is_some d.left_window
    pub started_right_window : is_some d.left_codec ≡ is_some d.right_window
    pub held : s.acquired ≡ references d.left_window d.right_window

  stop-IsValid :
      (d : Decoder f) (s : Display C)
      → s.acquired ≡ references d.left_window d.right_window
      → IsValid (stop d s).0 (stop d s).1
  unfolding stop
  stop-IsValid d s h = by_windows d.left_window d.right_window refl refl
    where
      by_windows :
          (l r : Option ℕ)
          → d.left_window ≡ l
          → d.right_window ≡ r
          → IsValid (stop d s).0 (stop d s).1
      by_windows none none el er = ground arith
      by_windows (some l) none el er = ground (arith, ==_refl l)
      by_windows none (some r) el er = ground (arith, ==_refl r)
      by_windows (some l) (some r) el er = ground (arith, ==_refl l, ==_refl r)

  -- What `stop` leaves alone, and the decoder that it leaves.
  stop_clears :
      (d : Decoder f) (s : Display C)
      → s.acquired ≡ references d.left_window d.right_window
      → ((stop d s).1.acquired ≡ [])
        × ((stop d s).0.left_codec ≡ none)
        × ((stop d s).0.right_codec ≡ none)
        × ((stop d s).0.left_window ≡ none)
        × ((stop d s).0.right_window ≡ none)
        × ((stop d s).0.surface_output ≡ false)
  stop_clears d s h =
      let v = stop-IsValid d s h in
      let (l, r, o) = emptied in (v.held ∙ rw (l, r), codecs.0, codecs.1, l, r, o)
    where
      emptied :
          ((stop d s).0.left_window ≡ none)
          × ((stop d s).0.right_window ≡ none)
          × ((stop d s).0.surface_output ≡ false)
      emptied = unfold stop in (refl, refl, refl)

      codecs : ((stop d s).0.left_codec ≡ none) × ((stop d s).0.right_codec ≡ none)
      codecs = unfold stop in (refl, refl)

  open_codecs-IsValid :
      (a : Answers) (l r generation : ℕ) (d : Decoder f) (s : Display C)
      → s.acquired ≡ r ∷ l ∷ []
      → let surfaces : StereoCodecSurfaces = record {
        left_window = some l;
        right_window = some r;
        generation = generation;
      } in
        let e = open_codecs a surfaces d s in IsValid e.0 e.1 × (e.2 ≡ e.0.surface_output)
  unfolding open_codecs
  open_codecs-IsValid a l r generation d s h = by_started (is_started opened) refl
    where
      surfaces : StereoCodecSurfaces
      surfaces = record { left_window = some l; right_window = some r; generation = generation }

      opened : Decoder f
      opened = record d {
        left_window = some l;
        right_window = some r;
        surface_generation = generation;
        surface_output = true;
        left_codec = (create_h264_decoder a.left_create).0;
        right_codec = (create_h264_decoder a.right_create).0;
      }

      Result : Bool → Type 0
      Result b =
          let e : Decoder f × Display C × Bool =
            if b then (opened, s, true) else ((stop opened s).0, (stop opened s).1, false) in
          IsValid e.0 e.1 × (e.2 ≡ e.0.surface_output)

      by_started : (b : Bool) → is_started opened ≡ b → Result b
      by_started false e = let c = stop_clears opened s h in (stop-IsValid opened s h, sym c.5)
      by_started true e = by_codecs opened.left_codec opened.right_codec refl refl
        where
          by_codecs :
              (x y : Option ℕ) → opened.left_codec ≡ x → opened.right_codec ≡ y → Result true
          by_codecs none y ex ey = absurd (ground (arith, e, ex, ey))
          by_codecs (some x) none ex ey = absurd (ground (arith, e, ex, ey))
          by_codecs (some x) (some y) ex ey = (
            record {
              both_or_none = ap is_some ex ∙ sym (ap is_some ey);
              started_output = ap is_some ex;
              started_left_window = ap is_some ex;
              started_right_window = ap is_some ex;
              held = h;
            },
            refl,
          )

  restart-IsValid :
      (h : VideoFrameHeader) (a : Answers) (d : Decoder f) (s : Display C)
      → IsValid d s
      → let e = restart h a d s in IsValid e.0 e.1 × (e.2 ≡ e.0.surface_output)
  unfolding restart acquire_stereo_codec_surfaces
  restart-IsValid h a d s v =
      by_surfaces (stop d s).1.codec_surfaces.left_window (stop d s).1.codec_surfaces.right_window
        refl refl
    where
      cleared : Decoder f
      cleared = record (stop d s).0 { width = h.width; height = h.height }

      unmoved :
          {t : Display C}
          → t.acquired ≡ (stop d s).1.acquired
          → IsValid cleared t × (false ≡ cleared.surface_output)
      unmoved e =
          let w = stop-IsValid d s v.held in
          (
            record {
              both_or_none = w.both_or_none;
              started_output = w.started_output;
              started_left_window = w.started_left_window;
              started_right_window = w.started_right_window;
              held = e ∙ w.held;
            },
            sym (stop_clears d s v.held).5,
          )

      Result : Option ℕ → Option ℕ → Type 0
      Result l r =
          let t = (stop d s).1 in
          let surfaces : StereoCodecSurfaces = record {
            left_window = l;
            right_window = r;
            generation = t.codec_surfaces.generation;
          } in
          let t₁ : Display C = record t { codec_surfaces = surfaces } in
          let e : Decoder f × Display C × Bool = elim (acquire_stereo_codec_surfaces t₁) [
            | none ↦ (cleared, t₁, false)
            | some (surfaces, s₁) ↦ open_codecs a surfaces cleared s₁
          ] in
          IsValid e.0 e.1 × (e.2 ≡ e.0.surface_output)

      by_surfaces :
          (l r : Option ℕ)
          → (stop d s).1.codec_surfaces.left_window ≡ l
          → (stop d s).1.codec_surfaces.right_window ≡ r
          → Result l r
      by_surfaces none r el er = unmoved refl
      by_surfaces (some l) none el er = unmoved refl
      by_surfaces (some l) (some r) el er =
          open_codecs-IsValid a l r _ cleared _ (ap (λ x. r ∷ l ∷ x) (stop_clears d s v.held).0)

  pub ensure_started-IsValid :
      (h : VideoFrameHeader) (a : Answers) (d : Decoder f) (s : Display C)
      → IsValid d s
      → let e = ensure_started h a d s in IsValid e.0 e.1 × (e.2 ≡ true → e.0.surface_output ≡ true)
  unfolding ensure_started
  ensure_started-IsValid h a d s v =
      by_tests
        (h.width == 0 || h.height == 0 || h.left_payload_size == 0 || h.right_payload_size == 0)
        (is_started d && (d.width == h.width && d.height == h.height)) refl
    where
      by_tests :
          (empty running : Bool)
          → is_started d && (d.width == h.width && d.height == h.height) ≡ running
          → let e : Decoder f × Display C × Bool =
              if empty then (d, s, false) else if running then (d, s, true) else restart h a d s in
            IsValid e.0 e.1 × (e.2 ≡ true → e.0.surface_output ≡ true)
      by_tests true running e = (v, λ k. cc)
      by_tests false true e = (v, λ _. ground (arith, e, v.started_output))
      by_tests false false e = let r = restart-IsValid h a d s v in (r.0, λ k. sym r.1 ∙ k)

  pub IsValid-unmoved :
      (d e : Decoder f) (s t : Display C)
      → handles e ≡ handles d
      → t.acquired ≡ s.acquired
      → IsValid d s
      → IsValid e t
  IsValid-unmoved d e s t h g v = record {
    both_or_none = ap (λ x. is_some x.0) h ∙ v.both_or_none ∙ ap (λ x. is_some x.1) (sym h);
    started_output = ap (λ x. is_some x.0) h ∙ v.started_output ∙ ap (λ x. x.4) (sym h);
    started_left_window =
        ap (λ x. is_some x.0) h ∙ v.started_left_window ∙ ap (λ x. is_some x.2) (sym h);
    started_right_window =
        ap (λ x. is_some x.0) h ∙ v.started_right_window ∙ ap (λ x. is_some x.3) (sym h);
    held = g ∙ v.held ∙ ap (λ x. references x.2 x.3) (sym h);
  }

  pub restart_if_behind-IsValid :
      (h : VideoFrameHeader) (d : Decoder f) (s : Display C)
      → IsValid d s
      → IsValid (restart_if_behind h d s).0 (restart_if_behind h d s).1
  unfolding restart_if_behind
  restart_if_behind-IsValid h d s v =
      by_test
        (d.has_published_frame && ltb ((h.frame_index + 2) % 2 ^ 64) d.last_published_frame_index)
    where
      by_test :
          (b : Bool)
          → let e : Decoder f × Display C = if b then stop d s else (d, s) in IsValid e.0 e.1
      by_test true = stop-IsValid d s v.held
      by_test false = v
