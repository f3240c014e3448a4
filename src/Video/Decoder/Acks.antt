-- ===== src/Video/Decoder/Acks.antt =====
-- The acknowledgements that wait to be sent, over any run of `decode` and `takeAcks`.
use robo_vr.Base.{
  ℕ, ◌<◌, ◌≤◌, ◌≡◌, ◌⊎◌, inl, inr, refl, sym, ap, ◌∙◌, Bool, true, false, List, [], ◌∷◌, ◌++◌,
  Option, none, some, arith, All, All-snoc, ◌%◌, ◌^◌, map, Bool-cases,
}
use mathlib.Core.Path.{subst}
use robo_vr.Protocol.Types.{VideoFrameHeader}
use robo_vr.Video.Display.{publish_stereo_codec_frame, Display}
use robo_vr.Video.Decoder.State.{Millis, Decoder}
use robo_vr.Video.Decoder.Handles.{progress}
use robo_vr.Video.Decoder.Decode.{Answers, drained, surface_path, decode}
use robo_vr.Video.Decoder.Invariant.{IsValid}
use robo_vr.Video.Decoder.Kept.{shown, Progress, fresh}
use robo_vr.Video.Decoder.Newest.{Newest, IsCandidate}
use robo_vr.Video.Decoder.Stages.{IsStaged, decode-IsStaged}
use robo_vr.Video.Decoder.Publishing.{ack_frames, surface_path_lem, Outcome}

abbrev pub Ascending : List ℕ → Type 0
Ascending [] = Unit {0}
Ascending (k ∷ ks) = All (λ j. k < j) ks × Ascending ks

All-map : (P Q : ℕ → Type 0) (ks : List ℕ) → ((k : ℕ) → P k → Q k) → All P ks → All Q ks
All-map P Q [] g a = tt
All-map P Q (k ∷ ks) g a = (g k a.0, All-map P Q ks g a.1)

Ascending-snoc :
    (ks : List ℕ) (k : ℕ) → Ascending ks → All (λ j. j < k) ks → Ascending (ks ++ k ∷ [])
Ascending-snoc [] k a b = (tt, tt)
Ascending-snoc (j ∷ ks) k a b = (All-snoc (λ i. j < i) ks k a.0 b.0, Ascending-snoc ks k a.1 b.1)

abbrev frames_of : {f : Millis} → Progress f → List ℕ
frames_of p = map (λ ack. ack.frame_index) p.0

module _ {f : Millis} where
  -- The frames to acknowledge ascend and end at most at the last one published.
  pub record IsOrdered (d : Decoder f) : Type 0 where
    pub none_before : d.has_published_frame ≡ false → ack_frames d ≡ []
    pub ascending : Ascending (ack_frames d)
    pub published : All (λ k. k ≤ d.last_published_frame_index) (ack_frames d)

  IsOrdered-progress :
      (d e : Decoder f)
      → (progress e ≡ progress d) ⊎ (progress e ≡ fresh)
      → IsOrdered d
      → IsOrdered e
  IsOrdered-progress d e (inl h) o = record {
    none_before = λ x. ap frames_of h ∙ o.none_before (ap (λ p. p.1) (sym h) ∙ x);
    ascending = subst (λ p. Ascending (frames_of p)) (sym h) o.ascending;
    published = subst (λ p. All (λ k. k ≤ p.2) (frames_of p)) (sym h) o.published;
  }
  IsOrdered-progress d e (inr h) o = record {
    none_before = λ x. ap frames_of h;
    ascending = subst (λ p. Ascending (frames_of p)) (sym h) tt;
    published = subst (λ p. All (λ k. k ≤ p.2) (frames_of p)) (sym h) tt;
  }

module _ {f : Millis} {C : Type 0} where
  Outcome-IsOrdered :
      (c : Option ℕ) (d e : Decoder f) (s t : Display C)
      → (left right : List (ℕ × Bool))
      → Newest (IsCandidate d.has_published_frame d.last_published_frame_index left right) c
      → Outcome c d e s t
      → IsOrdered d
      → IsOrdered e
  Outcome-IsOrdered none d e s t left right n o w = IsOrdered-progress d e (inl o.1) w
  Outcome-IsOrdered (some k) d e s t left right n o w = record {
    none_before = λ x. absurd (ground (arith, o.marked, x));
    ascending =
        subst Ascending (sym o.acknowledged)
          (Ascending-snoc (ack_frames d) k w.ascending (below (Bool-cases d.has_published_frame)));
    published = subst (All (λ j. j ≤ e.last_published_frame_index)) (sym o.acknowledged) (
        All-snoc _ (ack_frames d) k
          (All-map (λ j. j < k) _ (ack_frames d)
            (λ j h. let q = o.remembered in omega (arith, h, q))
            (below (Bool-cases d.has_published_frame)))
          (let q = o.remembered in omega (arith, q)));
  }
    where
      below :
          (d.has_published_frame ≡ true) ⊎ (d.has_published_frame ≡ false)
          → All (λ j. j < k) (ack_frames d)
      below (inl h) =
          let m = n.0.is_new h in
          All-map _ (λ j. j < k) (ack_frames d) (λ j q. omega (arith, q, m)) w.published
      below (inr h) = subst (All (λ j. j < k)) (sym (w.none_before h)) tt

  -- If the decoder is whole and the frames that wait to be acknowledged ascend strictly, none
  -- later than the last one published, then the same holds after `decode`, over any answers of
  -- MediaCodec.
  pub decode-IsOrdered :
      (h : VideoFrameHeader) (left right : List ℕ) (a : Answers) (d : Decoder f) (s : Display C)
      → IsValid d s
      → IsOrdered d
      → IsOrdered (decode h left right a d s).0
  unfolding drained
  decode-IsOrdered h left right a d s v w =
      let st = decode-IsStaged h left right a d s v in
      let u = IsOrdered-progress d st.staged st.kept.moved w in
      elim st.ended [
        | inl (e, _, _) ↦ rw (e) u
        | inr (e, _) ↦
            let (c, n, o) = surface_path_lem a st.staged st.staged_display in
            rw (e) (
              Outcome-IsOrdered c (drained a st.staged) _ _ _
                (drained a st.staged).surface_left_ready (drained a st.staged).surface_right_ready n
                o (IsOrdered-progress st.staged (drained a st.staged) (inl refl) u))
      ]

  -- On a whole decoder, either `decode` shows nothing new, or it shows one codec frame, which is
  -- the one that it records as the last one published and acknowledges last.
  pub decode_shows :
      (h : VideoFrameHeader) (left right : List ℕ) (a : Answers) (d : Decoder f) (s : Display C)
      → IsValid d s
      → (shown (decode h left right a d s).1 ≡ shown s)
        ⊎ ((decode h left right a d s).0.has_published_frame ≡ true)
          × (shown (decode h left right a d s).1
              ≡ shown (
                  publish_stereo_codec_frame
                    ((decode h left right a d s).0.last_published_frame_index % 2 ^ 32)
                    s))
          × ((earlier : List ℕ) × (ack_frames (decode h left right a d s).0
                ≡ earlier ++ (decode h left right a d s).0.last_published_frame_index ∷ []))
  unfolding publish_stereo_codec_frame
  decode_shows h left right a d s v = elim st.ended [
    | inl (_, g, _) ↦ inl (ap shown g ∙ st.kept.same_shown)
    | inr (e, g) ↦
        let (c, _, o) = surface_path_lem a st.staged st.staged_display in rw (e, g) (by_choice c o)
  ]
    where
      st : IsStaged a d s (decode h left right a d s)
      st = decode-IsStaged h left right a d s v

      p : Decoder f × Display C
      p = surface_path a st.staged st.staged_display

      shown-publish :
          (i : ℕ) (t u : Display C)
          → shown t ≡ shown u
          → shown (publish_stereo_codec_frame i t) ≡ shown (publish_stereo_codec_frame i u)
      shown-publish i t u q = ap (λ x. (x.0, none, x.2, x.3, i)) q

      by_choice :
          (c : Option ℕ)
          → Outcome c (drained a st.staged) p.0 st.staged_display p.1
          → (shown p.1 ≡ shown s)
            ⊎ (p.0.has_published_frame ≡ true)
              × (shown p.1
                  ≡ shown (publish_stereo_codec_frame (p.0.last_published_frame_index % 2 ^ 32) s))
              × ((earlier : List ℕ) × (ack_frames p.0
                    ≡ earlier ++ p.0.last_published_frame_index ∷ []))
      by_choice none o = inl (ap shown o.0 ∙ st.kept.same_shown)
      by_choice (some k) o = inr (
        o.marked,
        ap shown o.shown
            ∙ shown-publish _ st.staged_display s st.kept.same_shown
            ∙ ap (λ i. shown (publish_stereo_codec_frame (i % 2 ^ 32) s)) (sym o.remembered),
        (
          ack_frames (drained a st.staged),
          o.acknowledged ∙ ap (λ i. ack_frames (drained a st.staged) ++ i ∷ []) (sym o.remembered),
        ),
      )
