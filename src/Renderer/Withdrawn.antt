-- ===== src/Renderer/Withdrawn.antt =====
-- What `createCodecSurfaceResources` makes and publishes, and `cleanup` withdraws and releases.
use robo_vr.Base.{ℕ, ◌≡◌, ◌⊎◌, inl, inr, refl, Bool, true, false, [], ◌∷◌, Option, none, some}
use robo_vr.Video.Display.{Display, acquire_stereo_codec_surfaces}
use robo_vr.Renderer.CodecSurfaces.{
  Resources, no_resources, References, JavaAnswers, create_codec_surface_resources,
  cleanup_surfaces,
}

-- What a call of `createCodecSurfaceResources` leaves to the decoder and to `cleanup`.
abbrev pub IsWithdrawn :
    {C : Type 0} → Display C → Resources × References × Display C × Bool → Type 0
IsWithdrawn s (r, made, s', ok) =
    ((cleanup_surfaces true r s').0 ≡ no_resources)
    × ((cleanup_surfaces true r s').1 ≡ made)
    × (acquire_stereo_codec_surfaces (cleanup_surfaces true r s').2 ≡ none)
    × (((ok ≡ false) × (s' ≡ s))
        ⊎ ((ok ≡ true)
            × (l : ℕ) × (w : ℕ) × (made.windows ≡ l ∷ w ∷ [])
            × (s'.codec_surfaces.left_window ≡ some l)
            × (s'.codec_surfaces.right_window ≡ some w)))

-- What comes of `createCodecSurfaceResources`, whichever of its calls fail. A `cleanup` that has the
-- Java environment releases each reference and window that was made, once and in the same order, and
-- leaves no pointer behind; from then on the decoder is refused the surfaces. The globals change
-- only if it returns true, and then the windows published are the two that were made.
pub create_codec_surface_resources_lem :
    {C : Type 0} (a : JavaAnswers) (s : Display C)
    → IsWithdrawn s (create_codec_surface_resources a s)
unfolding create_codec_surface_resources cleanup_surfaces acquire_stereo_codec_surfaces
create_codec_surface_resources_lem {C} a s =
    by_answers a.bridge_class a.has_methods a.left.texture a.left.surface a.left.window
      a.right.texture a.right.surface a.right.window
  where
    by_answers :
        (class : Option ℕ) (has_methods : Bool) (t u w t' u' w' : Option ℕ)
        → IsWithdrawn s (
            create_codec_surface_resources
              (record {
                bridge_class = class;
                has_methods = has_methods;
                left = record { texture = t; surface = u; window = w };
                right = record { texture = t'; surface = u'; window = w' };
              })
              s)
    by_answers none _ _ _ _ _ _ _ = (refl, refl, refl, inl (refl, refl))
    by_answers (some class) false _ _ _ _ _ _ = (refl, refl, refl, inl (refl, refl))
    by_answers (some class) true none _ _ _ _ _ = (refl, refl, refl, inl (refl, refl))
    by_answers (some class) true (some t) none _ _ _ _ = (refl, refl, refl, inl (refl, refl))
    by_answers (some class) true (some t) (some u) none _ _ _ = (refl, refl, refl, inl (refl, refl))
    by_answers (some class) true (some t) (some u) (some w) none _ _ =
        (refl, refl, refl, inl (refl, refl))
    by_answers (some class) true (some t) (some u) (some w) (some t') none _ =
        (refl, refl, refl, inl (refl, refl))
    by_answers (some class) true (some t) (some u) (some w) (some t') (some u') none =
        (refl, refl, refl, inl (refl, refl))
    by_answers (some class) true (some t) (some u) (some w) (some t') (some u') (some w') =
        (refl, refl, refl, inr (refl, w, w', refl, refl, refl))
