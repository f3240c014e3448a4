-- ===== src/Renderer/Ends.antt =====
-- What a frame of `renderFrame` has done when it returns.
use robo_vr.Base.{
  ℕ, suc, ◌≡◌, ◌⊎◌, inl, inr, refl, if◌then◌else◌, Bool, true, false, not, ◌&&◌, List, [], ◌∷◌,
  Option, none, some, length,
}
use mathlib.Core.Path.{subst}
use robo_vr.Client.Reports.{HeadPoseSample}
use robo_vr.Renderer.Frame.{
  FloatOps, View, middle, eye_distance, FrameAnswers, Frame, indices, sample_of, render_frame,
  locate_controller, head_sample, with_controllers,
}

module _ {F : Type 0} (o : FloatOps F) where
  -- The sample of two located eyes: the head between them, each eye at its place.
  abbrev pub IsStereo : HeadPoseSample F → View o → View o → Type 0
  IsStereo sample left right =
      (sample.left_eye_pose ≡ left.0)
      × (sample.right_eye_pose ≡ right.0)
      × (sample.left_eye_fov ≡ left.1)
      × (sample.right_eye_fov ≡ right.1)
      × (sample.pose.px ≡ middle o left.0.px right.0.px)
      × (sample.pose.py ≡ middle o left.0.py right.0.py)
      × (sample.pose.pz ≡ middle o left.0.pz right.0.pz)
      × (sample.ipd_m ≡ eye_distance o left.0 right.0)

  -- What the pose of a frame says of the views located.
  abbrev pub Reports : FrameAnswers o → List (View o) → Option (HeadPoseSample F) → Type 0
  Reports a views published =
      ((sample : HeadPoseSample F)
        → published ≡ some sample
        → (sample.eye_view_count ≡ length views)
          × (sample.predicted_display_time_ns ≡ a.predicted_display_time))
      × ((left right : View o) (others : List (View o))
          → views ≡ left ∷ right ∷ others
          → (sample : HeadPoseSample F) × (published ≡ some sample) × IsStereo sample left right)

  abbrev pub Rendered : FrameAnswers o → Frame o → Type 0
  Rendered a frame =
      (flags : ℕ) × (views : List (View o)) × (a.views ≡ some (flags, views))
      × (frame.begun ≡ true)
      × (frame.layer_count ≡ 1)
      × (frame.rendered ≡ indices o 0 (length views))
      × Reports a views frame.published

  abbrev pub IsBare : Frame o → Type 0
  IsBare frame = (frame.layer_count ≡ 0) × (frame.rendered ≡ []) × (frame.published ≡ none)

  sample_of-Reports :
      (a : FrameAnswers o) (flags : ℕ) (views : List (View o))
      → Reports a views (sample_of o a flags views)
  unfolding sample_of head_sample with_controllers
  sample_of-Reports a flags [] = (λ sample e. absurd (cc), λ left right others e. absurd (cc))
  sample_of-Reports a flags (first ∷ others) = (counted, stereo others)
    where
      made : List (View o) → HeadPoseSample F
      made rest =
          with_controllers o (locate_controller o a.left) (locate_controller o a.right)
            (head_sample o a.predicted_display_time flags first rest)

      counted :
          (sample : HeadPoseSample F)
          → some (made others) ≡ some sample
          → (sample.eye_view_count ≡ suc (length others))
            × (sample.predicted_display_time_ns ≡ a.predicted_display_time)
      counted sample e =
          let same : made others ≡ sample = cc in
          subst
            (λ (x : HeadPoseSample F).
              (x.eye_view_count ≡ suc (length others))
              × (x.predicted_display_time_ns ≡ a.predicted_display_time))
            same (refl, refl)

      stereo :
          (others : List (View o)) (left right : View o) (rest : List (View o))
          → first ∷ others ≡ left ∷ right ∷ rest
          → (sample : HeadPoseSample F) × (some (made others) ≡ some sample)
            × IsStereo sample left right
      stereo [] left right rest e = absurd (cc)
      stereo (second ∷ others) left right rest e =
          let s = made (second ∷ others) in
          (
            s,
            refl,
            subst (λ x. IsStereo s x right) (cc)
                (subst (λ y. IsStereo s first y) (cc)
                  (refl, refl, refl, refl, refl, refl, refl, refl)),
          )

  -- The runtime waited for the frame, began it, asked for its pictures, and located its views.
  abbrev pub IsToRender : FrameAnswers o → Type 0
  IsToRender a =
      (a.waited ≡ true)
      × (a.begun ≡ true)
      × (a.should_render ≡ true)
      × ((located : ℕ × List (View o)) × (a.views ≡ some located))

  abbrev pub IsNotToRender : FrameAnswers o → Type 0
  IsNotToRender a =
      (a.waited ≡ false) ⊎ ((a.begun ≡ false) ⊎ ((a.should_render ≡ false) ⊎ (a.views ≡ none)))

  -- A frame is ended if and only if it was begun, which it is exactly if the runtime waited for it and
  -- began it. If in addition the runtime asks for its pictures and its views are located, then each of
  -- them is rendered once, in order, and one layer is handed over; otherwise nothing is rendered, handed
  -- over or published. A pose is published only if a view was located; with two views or more it is a
  -- sample of the two eyes, at the time of the frame.
  pub render_frame_lem :
      (a : FrameAnswers o)
      → let frame = render_frame o a in
        (frame.ended ≡ frame.begun)
        × (frame.begun ≡ (a.waited && a.begun))
        × ((IsToRender a × Rendered a frame) ⊎ (IsNotToRender a × IsBare frame))
  unfolding render_frame
  render_frame_lem a = by_tests a.waited refl a.begun refl a.should_render refl a.views refl
    where
      empty : Bool → Frame o
      empty b = record { begun = b; ended = b; published = none; rendered = []; layer_count = 0 }

      by_tests :
          (p : Bool)
          → a.waited ≡ p
          → (q : Bool) → a.begun ≡ q
          → (r : Bool) → a.should_render ≡ r
          → (v : Option (ℕ × List (View o))) → a.views ≡ v
          → let frame : Frame o =
              if not p
              then empty false
              else if not q
              then empty false
              else if not r
              then empty true
              else elim v [
                | none ↦ empty true
                | some (flags, views) ↦ record {
                  begun = true;
                  ended = true;
                  published = sample_of o a flags views;
                  rendered = indices o 0 (length views);
                  layer_count = 1;
                }
              ] in
            (frame.ended ≡ frame.begun)
            × (frame.begun ≡ (p && q))
            × ((IsToRender a × Rendered a frame) ⊎ (IsNotToRender a × IsBare frame))
      by_tests false w q b r s v e = (refl, refl, inr (inl w, (refl, refl, refl)))
      by_tests true w false b r s v e = (refl, refl, inr (inr (inl b), (refl, refl, refl)))
      by_tests true w true b false s v e = (refl, refl, inr (inr (inr (inl s)), (refl, refl, refl)))
      by_tests true w true b true s none e =
          (refl, refl, inr (inr (inr (inr e)), (refl, refl, refl)))
      by_tests true w true b true s (some (flags, views)) e = (
        refl,
        refl,
        inl (
          (w, b, s, ((flags, views), e)),
          (flags, views, e, refl, refl, refl, sample_of-Reports a flags views),
        ),
      )
