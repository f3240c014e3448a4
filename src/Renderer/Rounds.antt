-- ===== src/Renderer/Rounds.antt =====
-- The loop of `createSwapchains` over the views, and what `cleanup` destroys of what it leaves.
use robo_vr.Base.{
  ℕ, zero, suc, ◌≡◌, ◌⊎◌, inl, inr, refl, ap, ◌∙◌, if◌then◌else◌, Bool, true, false, List, [], ◌∷◌,
  Option, none, some, map, length, arith, All,
}
use robo_vr.Renderer.Swapchains.{
  ViewConfig, Swapchain, no_swapchain, SwapchainAnswers, contains, written_into, choose_format,
  info_of, fill_swapchain, create_swapchain, Created, create_rounds, destroy_swapchains,
}

-- A handle, if there is one, and the others behind it.
abbrev then_handle : Option ℕ → List ℕ → List ℕ
then_handle none destroyed = destroyed
then_handle (some handle) destroyed = handle ∷ destroyed

-- The handles that k calls of `xrCreateSwapchain` gave, from view i on.
abbrev pub given : ℕ → ℕ → (ℕ → SwapchainAnswers) → List ℕ
given i zero answers = []
given i (suc k) answers = then_handle (answers i).created (given (suc i) k answers)

abbrev pub view_size : ViewConfig → ℕ × ℕ
view_size v = (v.recommended_image_rect_width, v.recommended_image_rect_height)

abbrev pub swapchain_size : Swapchain → ℕ × ℕ
swapchain_size c = (c.width, c.height)

pub destroy_twice : (cs : List Swapchain) → (destroy_swapchains (destroy_swapchains cs).0).1 ≡ []
unfolding destroy_swapchains
destroy_twice [] = refl
destroy_twice (c ∷ cs) = ground (arith, destroy_twice cs)

destroy_none {ℓ} :
    {A : Type ℓ} (vs : List A) → (destroy_swapchains (map (λ _. no_swapchain) vs)).1 ≡ []
unfolding destroy_swapchains
destroy_none [] = refl
destroy_none (v ∷ vs) = destroy_none vs

pub written_into-length : (xs : List ℕ) → written_into (length xs) xs ≡ xs
unfolding written_into
written_into-length [] = refl
written_into-length (x ∷ xs) = ap (λ ys. x ∷ ys) (written_into-length xs)

pub choose_format_offered :
    (format : ℕ) (formats candidates : List ℕ)
    → contains (choose_format (format ∷ formats) candidates) (format ∷ formats) ≡ true
unfolding choose_format contains
choose_format_offered format formats [] = ground arith
choose_format_offered format formats (candidate ∷ candidates) =
    let later = choose_format_offered format formats candidates in ground (arith, later)

-- What the loop over the views leaves.
abbrev pub RoundsOf : ℕ → ℕ → (ℕ → SwapchainAnswers) → List ViewConfig → Created → Type 0
RoundsOf color_format i answers views r =
    ((destroy_swapchains r.swapchains).1 ≡ given i (length r.calls) answers)
    × (All (λ info. info.format ≡ color_format) r.calls
        × ((r.done ≡ false)
            ⊎ ((map swapchain_size r.swapchains ≡ map view_size views)
                × (length (destroy_swapchains r.swapchains).1 ≡ length views))))

-- What one round leaves, whichever of its calls fail.
create_swapchain_lem :
    (a : SwapchainAnswers) (v : ViewConfig)
    → ((create_swapchain a v).0.handle ≡ a.created)
      × ((swapchain_size (create_swapchain a v).0 ≡ view_size v)
          × (((create_swapchain a v).1 ≡ false) ⊎ ((handle : ℕ) × (a.created ≡ some handle))))
unfolding create_swapchain fill_swapchain
create_swapchain_lem a v = by_answers a.created a.image_count a.images
  where
    by_answers :
        (created image_count : Option ℕ) (images : Option (List ℕ))
        → let q =
            create_swapchain
              (record { created = created; image_count = image_count; images = images })
              v in
          (q.0.handle ≡ created)
          × ((swapchain_size q.0 ≡ view_size v)
              × ((q.1 ≡ false) ⊎ ((handle : ℕ) × (created ≡ some handle))))
    by_answers none count images = (refl, (refl, inl refl))
    by_answers (some handle) none images = (refl, (refl, inl refl))
    by_answers (some handle) (some n) none = (refl, (refl, inl refl))
    by_answers (some handle) (some n) (some images) = (refl, (refl, inr (handle, refl)))

destroy_next :
    (c : Swapchain) (cs : List Swapchain) (o : Option ℕ)
    → c.handle ≡ o
    → (destroy_swapchains (c ∷ cs)).1 ≡ then_handle o (destroy_swapchains cs).1
unfolding destroy_swapchains
destroy_next c cs o e = ground (arith, e)

pub create_rounds-RoundsOf :
    (color_format i : ℕ) (answers : ℕ → SwapchainAnswers) (views : List ViewConfig)
    → RoundsOf color_format i answers views (create_rounds color_format i answers views)
unfolding create_rounds destroy_swapchains
create_rounds-RoundsOf color_format i answers [] = (refl, (tt, inr (refl, refl)))
create_rounds-RoundsOf color_format i answers (v ∷ vs) =
    by_test (create_swapchain (answers i) v).1 (create_swapchain_lem (answers i) v).1.1
      (create_rounds color_format (suc i) answers vs)
      (create_rounds-RoundsOf color_format (suc i) answers vs)
  where
    c : Swapchain
    c = (create_swapchain (answers i) v).0

    same : c.handle ≡ (answers i).created
    same = (create_swapchain_lem (answers i) v).0

    sized : swapchain_size c ≡ view_size v
    sized = (create_swapchain_lem (answers i) v).1.0

    by_test :
        (ok : Bool)
        → (ok ≡ false) ⊎ ((handle : ℕ) × ((answers i).created ≡ some handle))
        → (later : Created) → RoundsOf color_format (suc i) answers vs later
        → RoundsOf color_format i answers (v ∷ vs) (
            if ok
            then record {
              swapchains = c ∷ later.swapchains;
              calls = info_of color_format v ∷ later.calls;
              done = later.done;
            }
            else record {
              swapchains = c ∷ map (λ _. no_swapchain) vs;
              calls = info_of color_format v ∷ [];
              done = false;
            })
    by_test false _ later _ = (
      destroy_next c (map (λ _. no_swapchain) vs) (answers i).created same
          ∙ ap (then_handle (answers i).created) (destroy_none vs),
      ((refl, tt), inl refl),
    )
    by_test true (inl e) later _ = cc
    by_test true (inr (handle, e)) later (destroyed, (calls, ended)) = (
      destroy_next c later.swapchains (answers i).created same
          ∙ ap (then_handle (answers i).created) destroyed,
      (
        (refl, calls),
        elim ended [
          | inl e' ↦ inl e'
          | inr (sizes, whole) ↦ inr (
            ap (λ x. x ∷ map swapchain_size later.swapchains) sized
                ∙ ap (λ xs. view_size v ∷ xs) sizes,
            ap length (destroy_next c later.swapchains (some handle) (same ∙ e)) ∙ ap suc whole,
          )
        ],
      ),
    )
