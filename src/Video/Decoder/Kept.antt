-- ===== src/Video/Decoder/Kept.antt =====
-- What the stages of `decode` before the publishing leave alone.
use robo_vr.Base.{
  ℕ, ◌+◌, ◌==◌, ◌≡◌, ◌⊎◌, inl, inr, refl, sym, ap, ◌∙◌, Bool, true, false, ◌&&◌, ◌||◌, List, [],
  ◌∷◌, Option, none, some, if◌then◌else◌, ltb, ◌%◌, ◌^◌,
}
use robo_vr.Protocol.Types.{VideoFrameHeader}
use robo_vr.Video.Display.{
  Display, StereoVideoFrame, StereoCodecSurfaces, acquire_stereo_codec_surfaces,
}
use robo_vr.Video.Decoder.State.{Millis, Decoder, VideoDecodeAck, stop, release_window}
use robo_vr.Video.Decoder.Codec.{create_h264_decoder}
use robo_vr.Video.Decoder.Handles.{progress}
use robo_vr.Video.Decoder.Decode.{
  Answers, is_started, open_codecs, restart, ensure_started, restart_if_behind,
}

-- `progress` of a decoder, and that of one that has published nothing.
abbrev pub Progress : Millis → Type 0
Progress f = List (VideoDecodeAck f) × Bool × ℕ

abbrev pub fresh : {f : Millis} → Progress f
fresh = ([], false, 0)

-- What a display shows, the references on its windows aside.
abbrev pub shown :
    {C : Type 0} → Display C → C × Option StereoVideoFrame × StereoCodecSurfaces × ℕ × ℕ
shown s = (
  s.stereo_colors, s.stereo_frame, s.codec_surfaces, s.codec_surface_generation,
  s.latest_codec_frame,
)

module _ {C : Type 0} where
  release_window-shown : (w : Option ℕ) (s : Display C) → shown (release_window w s) ≡ shown s
  unfolding release_window
  release_window-shown none s = refl
  release_window-shown (some w) s = refl

  acquire-shown :
      (s : Display C) (surfaces : StereoCodecSurfaces) (u : Display C)
      → acquire_stereo_codec_surfaces s ≡ some (surfaces, u)
      → shown u ≡ shown s
  unfolding acquire_stereo_codec_surfaces
  acquire-shown s surfaces u = by_windows s.codec_surfaces.left_window s.codec_surfaces.right_window
    where
      shown_of :
          Option (StereoCodecSurfaces × Display C)
          → C × Option StereoVideoFrame × StereoCodecSurfaces × ℕ × ℕ
      shown_of none = shown s
      shown_of (some (_, t)) = shown t

      by_windows :
          (l r : Option ℕ)
          → let o : Option (StereoCodecSurfaces × Display C) = elim l [
            | none ↦ none
            | some l ↦ elim r [
              | none ↦ none
              | some r ↦ some (s.codec_surfaces, record s { acquired = r ∷ l ∷ s.acquired })
            ]
          ] in
            o ≡ some (surfaces, u) → shown u ≡ shown s
      by_windows none r e = cc
      by_windows (some l) none e = cc
      by_windows (some l) (some r) e = ap shown_of (sym e)

module _ {f : Millis} {C : Type 0} where
  -- Between the two, the decoder has at most been restarted, and nothing has been shown.
  pub record IsKept (d : Decoder f) (s : Display C) (e : Decoder f) (t : Display C) : Type 0 where
    pub moved : (progress e ≡ progress d) ⊎ (progress e ≡ fresh)
    pub same_shown : shown t ≡ shown s

  pub IsKept-trans :
      {d e g : Decoder f} {s t u : Display C} → IsKept d s e t → IsKept e t g u → IsKept d s g u
  IsKept-trans k l = record {
    moved = elim l.moved [
      | inl h ↦ elim k.moved [ inl h' ↦ inl (h ∙ h') | inr h' ↦ inr (h ∙ h') ]
      | inr h ↦ inr h
    ];
    same_shown = l.same_shown ∙ k.same_shown;
  }

  stop-IsKept : (d : Decoder f) (s : Display C) → IsKept d s (stop d s).0 (stop d s).1
  stop-IsKept d s = record {
    moved = inr (unfold stop in refl);
    same_shown =
        unfold stop in release_window-shown d.right_window _ ∙ release_window-shown d.left_window s;
  }

  open_codecs-IsKept :
      (a : Answers) (surfaces : StereoCodecSurfaces) (d : Decoder f) (s : Display C)
      → IsKept d s (open_codecs a surfaces d s).0 (open_codecs a surfaces d s).1
  unfolding open_codecs
  open_codecs-IsKept a surfaces d s = by_started (is_started opened)
    where
      opened : Decoder f
      opened = record d {
        left_window = surfaces.left_window;
        right_window = surfaces.right_window;
        surface_generation = surfaces.generation;
        surface_output = true;
        left_codec = (create_h264_decoder a.left_create).0;
        right_codec = (create_h264_decoder a.right_create).0;
      }

      by_started :
          (b : Bool)
          → let e : Decoder f × Display C × Bool =
              if b then (opened, s, true) else ((stop opened s).0, (stop opened s).1, false) in
            IsKept d s e.0 e.1
      by_started true = record { moved = inl refl; same_shown = refl }
      by_started false =
          let k = stop-IsKept opened s in record { moved = k.moved; same_shown = k.same_shown }

  restart-IsKept :
      (h : VideoFrameHeader) (a : Answers) (d : Decoder f) (s : Display C)
      → IsKept d s (restart h a d s).0 (restart h a d s).1
  unfolding restart
  restart-IsKept h a d s =
      IsKept-trans stopped_kept
        (by_surfaces (acquire_stereo_codec_surfaces t) (λ x u e. acquire-shown t x u e))
    where
      t : Display C
      t = (stop d s).1

      cleared : Decoder f
      cleared = record (stop d s).0 { width = h.width; height = h.height }

      stopped_kept : IsKept d s cleared t
      stopped_kept =
          let k = stop-IsKept d s in record { moved = k.moved; same_shown = k.same_shown }

      by_surfaces :
          (c : Option (StereoCodecSurfaces × Display C))
          → ((surfaces : StereoCodecSurfaces) (u : Display C)
              → c ≡ some (surfaces, u)
              → shown u ≡ shown t)
          → let e : Decoder f × Display C × Bool = elim c [
            | none ↦ (cleared, t, false)
            | some (surfaces, u) ↦ open_codecs a surfaces cleared u
          ] in
            IsKept cleared t e.0 e.1
      by_surfaces none g = record { moved = inl refl; same_shown = refl }
      by_surfaces (some (surfaces, u)) g =
          IsKept-trans (record { moved = inl refl; same_shown = g surfaces u refl })
            (open_codecs-IsKept a surfaces cleared u)

  pub ensure_started-IsKept :
      (h : VideoFrameHeader) (a : Answers) (d : Decoder f) (s : Display C)
      → IsKept d s (ensure_started h a d s).0 (ensure_started h a d s).1
  unfolding ensure_started
  ensure_started-IsKept h a d s =
      by_tests
        (h.width == 0 || h.height == 0 || h.left_payload_size == 0 || h.right_payload_size == 0)
        (is_started d && (d.width == h.width && d.height == h.height))
    where
      by_tests :
          (empty running : Bool)
          → let e : Decoder f × Display C × Bool =
              if empty then (d, s, false) else if running then (d, s, true) else restart h a d s in
            IsKept d s e.0 e.1
      by_tests true running = record { moved = inl refl; same_shown = refl }
      by_tests false true = record { moved = inl refl; same_shown = refl }
      by_tests false false = restart-IsKept h a d s

  pub restart_if_behind-IsKept :
      (h : VideoFrameHeader) (d : Decoder f) (s : Display C)
      → IsKept d s (restart_if_behind h d s).0 (restart_if_behind h d s).1
  unfolding restart_if_behind
  restart_if_behind-IsKept h d s =
      by_test
        (d.has_published_frame && ltb ((h.frame_index + 2) % 2 ^ 64) d.last_published_frame_index)
    where
      by_test :
          (b : Bool)
          → let e : Decoder f × Display C = if b then stop d s else (d, s) in IsKept d s e.0 e.1
      by_test true = stop-IsKept d s
      by_test false = record { moved = inl refl; same_shown = refl }
