-- ===== src/Video/Decoder/Stages.antt =====
-- `decode` taken apart: what it does before the publishing, and that it publishes on surfaces only.
use robo_vr.Base.{ℕ, List, ◌≡◌, ◌⊎◌, inl, inr, refl, ap, ◌∙◌, Bool, true, false, not, if◌then◌else◌}
use robo_vr.Protocol.Types.{VideoFrameHeader}
use robo_vr.Video.Display.{Display}
use robo_vr.Video.Decoder.State.{Millis, Decoder}
use robo_vr.Video.Decoder.Publish.{inc}
use robo_vr.Video.Decoder.Decode.{
  Answers, ensure_started, queue_both, surface_path, cpu_path, restart_if_behind, decode,
}
use robo_vr.Video.Decoder.Handles.{surface_path-handles, queue_both-handles}
use robo_vr.Video.Decoder.Invariant.{
  IsValid, IsValid-unmoved, ensure_started-IsValid, restart_if_behind-IsValid,
}
use robo_vr.Video.Decoder.Kept.{
  IsKept, IsKept-trans, ensure_started-IsKept, restart_if_behind-IsKept,
}

module _ {f : Millis} {C : Type 0} where
  -- The result of `decode` is that of a stage that publishes nothing, or one pass of the surface path
  -- on it.
  pub record IsStaged (a : Answers) (d : Decoder f) (s : Display C)
      (e : Decoder f × Display C × Bool) : Type 0 where
    pub staged : Decoder f
    pub staged_display : Display C
    pub staged_valid : IsValid staged staged_display
    pub kept : IsKept d s staged staged_display
    pub ended :
        ((e.0 ≡ staged) × (e.1 ≡ staged_display) × (e.2 ≡ false))
        ⊎ ((e.0 ≡ (surface_path a staged staged_display).0)
            × (e.1 ≡ (surface_path a staged staged_display).1))

  pub decode-IsStaged :
      (h : VideoFrameHeader) (left right : List ℕ) (a : Answers) (d : Decoder f) (s : Display C)
      → IsValid d s
      → IsStaged a d s (decode h left right a d s)
  unfolding decode
  decode-IsStaged h left right a d s v =
      by_ensured (ensure_started h a d₂ r.1) (ensure_started-IsValid h a d₂ r.1 v₂)
        (IsKept-trans k₂ (ensure_started-IsKept h a d₂ r.1))
    where
      r : Decoder f × Display C
      r = restart_if_behind h d s

      d₂ : Decoder f
      d₂ = record r.0 { received_frames = inc r.0.received_frames }

      v₂ : IsValid d₂ r.1
      v₂ = IsValid-unmoved r.0 d₂ r.1 r.1 refl refl (restart_if_behind-IsValid h d s v)

      k₂ : IsKept d s d₂ r.1
      k₂ =
          let k = restart_if_behind-IsKept h d s in
          record { moved = k.moved; same_shown = k.same_shown }

      by_output :
          (d₄ : Decoder f) (t : Display C) (b queued : Bool)
          → d₄.surface_output ≡ true
          → d₄.surface_output ≡ b
          → IsValid d₄ t
          → IsKept d s d₄ t
          → let e : Decoder f × Display C = if b then surface_path a d₄ t else cpu_path a d₄ t in
            IsStaged a d s (e.0, e.1, queued)
      by_output d₄ t false queued o g w k = cc
      by_output d₄ t true queued o g w k = record {
        staged = d₄;
        staged_display = t;
        staged_valid = w;
        kept = k;
        ended = inr (refl, refl);
      }

      by_ensured :
          (x : Decoder f × Display C × Bool)
          → IsValid x.0 x.1 × (x.2 ≡ true → x.0.surface_output ≡ true)
          → IsKept d s x.0 x.1
          → let e : Decoder f × Display C × Bool =
              if not x.2
              then (x.0, x.1, false)
              else let q = queue_both h left right a x.0 in
                let p : Decoder f × Display C =
                  if q.0.surface_output then surface_path a q.0 x.1 else cpu_path a q.0 x.1 in
                (p.0, p.1, q.1) in
            IsStaged a d s e
      by_ensured (d₃, t, false) (w, o) k = record {
        staged = d₃;
        staged_display = t;
        staged_valid = w;
        kept = k;
        ended = inl (refl, refl, refl);
      }
      by_ensured (d₃, t, true) (w, o) k =
          let (q, g) = queue_both-handles h left right a d₃ in
          by_output (queue_both h left right a d₃).0 t _ (queue_both h left right a d₃).1
            (ap (λ x. x.4) q ∙ o refl) refl
            (IsValid-unmoved d₃ (queue_both h left right a d₃).0 t t q refl w)
            (IsKept-trans k (record { moved = inl (g); same_shown = refl }))

  -- Whatever MediaCodec answers, `decode` keeps a whole decoder whole: its codecs, its windows and
  -- its output kind come and go together, and it holds exactly the window references of its
  -- fields.
  pub decode-IsValid :
      (h : VideoFrameHeader) (left right : List ℕ) (a : Answers) (d : Decoder f) (s : Display C)
      → IsValid d s
      → IsValid (decode h left right a d s).0 (decode h left right a d s).1
  decode-IsValid h left right a d s v =
      let st = decode-IsStaged h left right a d s v in
      elim st.ended [
        | inl (e, g, _) ↦ rw (e, g) st.staged_valid
        | inr (e, g) ↦
            let p = surface_path-handles a st.staged st.staged_display in
            rw (e, g) (IsValid-unmoved st.staged _ st.staged_display _ p.0 p.1 st.staged_valid)
      ]
