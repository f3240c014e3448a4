-- ===== src/Renderer/Destroyed.antt =====
-- What `createSwapchains` makes and `cleanup` destroys.
use mathlib.Core.Path.{subst}
use robo_vr.Base.{
  ℕ, suc, ◌≡◌, ◌⊎◌, inl, inr, refl, sym, ap, ◌∙◌, ◌==◌, if◌then◌else◌, Bool, true, false, List, [],
  ◌∷◌, Option, none, some, map, length, arith, All,
}
use robo_vr.Renderer.Swapchains.{
  Formats, ViewConfig, SwapchainCreateInfo, SwapchainAnswers, Runtime, contains, written_into,
  choose_format, preferred, Created, create_rounds, nothing_created, create_for_views,
  create_swapchains, destroy_swapchains,
}
use robo_vr.Renderer.Rounds.{
  given, view_size, swapchain_size, destroy_twice, written_into-length, choose_format_offered,
  create_rounds-RoundsOf,
}

-- What `createSwapchains` leaves, for formats that the runtime offers and the views that it reports.
abbrev pub Leaves : List ℕ → Option (List ViewConfig) → (ℕ → SwapchainAnswers) → Created → Type 0
Leaves formats views answers r =
    ((destroy_swapchains r.swapchains).1 ≡ given 0 (length r.calls) answers)
    × ((destroy_swapchains (destroy_swapchains r.swapchains).0).1 ≡ [])
    × All (λ info. contains info.format formats ≡ true) r.calls
    × ((r.done ≡ false)
        ⊎ ((vs : List ViewConfig) × (views ≡ some vs)
            × (map swapchain_size r.swapchains ≡ map view_size vs)
            × (length (destroy_swapchains r.swapchains).1 ≡ length vs)))

All-format :
    (color_format : ℕ) (formats : List ℕ) (calls : List SwapchainCreateInfo)
    → contains color_format formats ≡ true
    → All (λ info. info.format ≡ color_format) calls
    → All (λ info. contains info.format formats ≡ true) calls
All-format color_format formats [] e h = tt
All-format color_format formats (info ∷ calls) e (same, h) =
    (ap (λ x. contains x formats) same ∙ e, All-format color_format formats calls e h)

nothing-Leaves :
    (formats : List ℕ) (views : Option (List ViewConfig)) (answers : ℕ → SwapchainAnswers)
    → Leaves formats views answers nothing_created
unfolding destroy_swapchains
nothing-Leaves formats views answers = (refl, refl, tt, inl refl)

-- The loop runs with a format that the runtime offers.
create_for_views_lem :
    (gl : Formats) (a : Runtime) (format : ℕ) (formats : List ℕ) (views : List ViewConfig)
    → a.format_count ≡ some (suc (length formats))
    → a.formats ≡ some (format ∷ formats)
    → create_for_views gl a views
      ≡ create_rounds (choose_format (format ∷ formats) (preferred gl)) 0 a.swapchain views
unfolding create_for_views
create_for_views_lem gl a format formats views counted offered =
    ap on_count counted
    ∙ ap (λ b. if b then nothing_created else on_formats (suc (length formats)) a.formats) positive
    ∙ ap (on_formats (suc (length formats))) offered
    ∙ ap with_vector (written_into-length (format ∷ formats))
  where
    positive : (suc (length formats) == 0) ≡ false
    positive = ground arith

    with_vector : List ℕ → Created
    with_vector xs = create_rounds (choose_format xs (preferred gl)) 0 a.swapchain views

    on_formats : ℕ → Option (List ℕ) → Created
    on_formats n o = elim o [
      | none ↦ nothing_created
      | some written ↦ with_vector (written_into n written)
    ]

    on_count : Option ℕ → Created
    on_count o = elim o [
      | none ↦ nothing_created
      | some n ↦ if n == 0 then nothing_created else on_formats n a.formats
    ]

create_rounds-Leaves :
    (color_format : ℕ) (formats : List ℕ) (answers : ℕ → SwapchainAnswers) (views : List ViewConfig)
    → contains color_format formats ≡ true
    → Leaves formats (some views) answers (create_rounds color_format 0 answers views)
create_rounds-Leaves color_format formats answers views e =
    let r = create_rounds color_format 0 answers views in
    let (destroyed, (same, ended)) = create_rounds-RoundsOf color_format 0 answers views in
    (
      destroyed,
      destroy_twice r.swapchains,
      All-format color_format formats r.calls e same,
      elim ended [ inl e' ↦ inl e' | inr (sizes, whole) ↦ inr (views, refl, sizes, whole) ],
    )

create_for_views-Leaves :
    (gl : Formats) (a : Runtime) (format : ℕ) (formats : List ℕ) (views : List ViewConfig)
    → a.format_count ≡ some (suc (length formats))
    → a.formats ≡ some (format ∷ formats)
    → Leaves (format ∷ formats) (some views) a.swapchain (create_for_views gl a views)
create_for_views-Leaves gl a format formats views counted offered =
    subst (Leaves (format ∷ formats) (some views) a.swapchain)
      (sym (create_for_views_lem gl a format formats views counted offered))
      (create_rounds-Leaves (choose_format (format ∷ formats) (preferred gl)) (format ∷ formats)
        a.swapchain views (choose_format_offered format formats (preferred gl)))

-- What comes of `createSwapchains` and `cleanup`. If the runtime reports at least one format and
-- writes as many as it counted, then whatever its other calls answer, every swapchain is asked for
-- with a format of the runtime's, and `cleanup` destroys exactly the handles that `xrCreateSwapchain`
-- gave, once each and in their order, and none when it runs again. When `createSwapchains` returns
-- true, there is a swapchain for each view, of the size that the view recommends, and as many handles
-- are destroyed.
pub create_swapchains_lem :
    (gl : Formats) (a : Runtime) (format : ℕ) (formats : List ℕ)
    → a.format_count ≡ some (suc (length formats))
    → a.formats ≡ some (format ∷ formats)
    → Leaves (format ∷ formats) a.view_configs a.swapchain (create_swapchains gl a)
unfolding create_swapchains
create_swapchains_lem gl a format formats counted offered = by_count a.view_count a.view_configs
  where
    by_test :
        (b : Bool) (views : Option (List ViewConfig))
        → Leaves (format ∷ formats) views a.swapchain (
            if b
            then nothing_created
            else elim views [ none ↦ nothing_created | some vs ↦ create_for_views gl a vs ])
    by_test true views = nothing-Leaves (format ∷ formats) views a.swapchain
    by_test false none = nothing-Leaves (format ∷ formats) none a.swapchain
    by_test false (some vs) = create_for_views-Leaves gl a format formats vs counted offered

    by_count :
        (count : Option ℕ) (views : Option (List ViewConfig))
        → Leaves (format ∷ formats) views a.swapchain (elim count [
          | none ↦ nothing_created
          | some n ↦
              if n == 0
              then nothing_created
              else elim views [ none ↦ nothing_created | some vs ↦ create_for_views gl a vs ]
        ])
    by_count none views = nothing-Leaves (format ∷ formats) views a.swapchain
    by_count (some n) views = by_test (n == 0) views
