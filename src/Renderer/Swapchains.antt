-- ===== src/Renderer/Swapchains.antt =====
-- `createSwapchains`, and the part of `cleanup` that destroys the swapchains. `createSwapchains` is
-- called once, on the empty vectors that the class starts with. Widths, heights and formats are the
-- bits of their machine integers.
use robo_vr.Base.{
  ℕ, zero, suc, ◌==◌, if◌then◌else◌, Bool, true, false, List, [], ◌∷◌, Option, none, some, map,
}

-- The formats of OpenGL that the source names.
pub record Formats : Type 0 where
  pub gl_srgb8_alpha8 : ℕ
  pub gl_rgba8 : ℕ
  pub gl_rgb10_a2 : ℕ

pub record ViewConfig : Type 0 where
  pub recommended_image_rect_width : ℕ
  pub recommended_image_rect_height : ℕ
  pub recommended_swapchain_sample_count : ℕ

pub record Swapchain : Type 0 where
  pub handle : Option ℕ
  pub width : ℕ
  pub height : ℕ
  pub images : List ℕ

abbrev pub no_swapchain : Swapchain
no_swapchain = record { handle = none; width = 0; height = 0; images = [] }

-- The fields of `XrSwapchainCreateInfo` that vary.
pub record SwapchainCreateInfo : Type 0 where
  pub format : ℕ
  pub sample_count : ℕ
  pub width : ℕ
  pub height : ℕ

-- What the runtime answers for one swapchain; `none`: the call failed.
pub record SwapchainAnswers : Type 0 where
  pub created : Option ℕ
  pub image_count : Option ℕ
  pub images : Option (List ℕ)

pub record Runtime : Type 0 where
  pub view_count : Option ℕ
  pub view_configs : Option (List ViewConfig)
  pub format_count : Option ℕ
  pub formats : Option (List ℕ)
  pub swapchain : ℕ → SwapchainAnswers

-- `std::find(…) != end()`
unfoldable pub contains : ℕ → List ℕ → Bool
contains a [] = false
contains a (b ∷ bs) = if b == a then true else contains a bs

-- A vector of n elements into which the runtime writes some.
unfoldable pub written_into : ℕ → List ℕ → List ℕ
written_into zero written = []
written_into (suc n) [] = 0 ∷ written_into n []
written_into (suc n) (w ∷ written) = w ∷ written_into n written

-- `formats.front()`, on a vector that is not empty.
abbrev pub front : List ℕ → ℕ
front [] = 0
front (format ∷ formats) = format

-- The loop over the preferred formats.
unfoldable pub choose_format : List ℕ → List ℕ → ℕ
unfolding contains
choose_format formats [] = front formats
choose_format formats (candidate ∷ preferred) =
    if contains candidate formats then candidate else choose_format formats preferred

abbrev pub preferred : Formats → List ℕ
preferred gl = gl.gl_srgb8_alpha8 ∷ gl.gl_rgba8 ∷ gl.gl_rgb10_a2 ∷ []

abbrev pub info_of : ℕ → ViewConfig → SwapchainCreateInfo
info_of color_format v = record {
  format = color_format;
  sample_count = v.recommended_swapchain_sample_count;
  width = v.recommended_image_rect_width;
  height = v.recommended_image_rect_height;
}

-- The body of the loop behind the sizes, and whether it goes on.
unfoldable pub fill_swapchain : SwapchainAnswers → Swapchain → Swapchain × Bool
unfolding written_into
fill_swapchain a c = elim a.created [
  | none ↦ (c, false)
  | some handle ↦ elim a.image_count [
    | none ↦ (record c { handle = some handle }, false)
    | some n ↦ elim a.images [
      | none ↦ (record c { handle = some handle; images = written_into n [] }, false)
      | some images ↦ (record c { handle = some handle; images = written_into n images }, true)
    ]
  ]
]

unfoldable pub create_swapchain : SwapchainAnswers → ViewConfig → Swapchain × Bool
unfolding fill_swapchain
create_swapchain a v = fill_swapchain a (record no_swapchain {
  width = v.recommended_image_rect_width;
  height = v.recommended_image_rect_height;
})

-- What the loop leaves: the swapchains, the calls of `xrCreateSwapchain`, and whether it came to its
-- end.
pub record Created : Type 0 where
  pub swapchains : List Swapchain
  pub calls : List SwapchainCreateInfo
  pub done : Bool

-- The loop from view i on.
unfoldable pub create_rounds : ℕ → ℕ → (ℕ → SwapchainAnswers) → List ViewConfig → Created
unfolding create_swapchain
create_rounds color_format i answers [] = record { swapchains = []; calls = []; done = true }
create_rounds color_format i answers (v ∷ vs) =
    let (c, ok) = create_swapchain (answers i) v in
    let later = create_rounds color_format (suc i) answers vs in
    if ok
    then record {
      swapchains = c ∷ later.swapchains;
      calls = info_of color_format v ∷ later.calls;
      done = later.done;
    }
    else record {
      swapchains = c ∷ map (λ _. no_swapchain) vs;
      calls = info_of color_format v ∷ [];
      done = false;
    }

abbrev pub nothing_created : Created
nothing_created = record { swapchains = []; calls = []; done = false }

-- The part behind the first test.
unfoldable pub create_for_views : Formats → Runtime → List ViewConfig → Created
unfolding choose_format written_into create_rounds
create_for_views gl a views = elim a.format_count [
  | none ↦ nothing_created
  | some n ↦ if n == 0 then nothing_created else elim a.formats [
    | none ↦ nothing_created
    | some formats ↦
        create_rounds (choose_format (written_into n formats) (preferred gl)) 0 a.swapchain views
  ]
]

unfoldable pub create_swapchains : Formats → Runtime → Created
unfolding create_for_views
create_swapchains gl a = elim a.view_count [
  | none ↦ nothing_created
  | some n ↦
      if n == 0
      then nothing_created
      else elim a.view_configs [ none ↦ nothing_created | some views ↦ create_for_views gl a views ]
]

-- The loop of `cleanup`: the swapchains, and the handles that it destroys.
unfoldable pub destroy_swapchains : List Swapchain → List Swapchain × List ℕ
destroy_swapchains [] = ([], [])
destroy_swapchains (c ∷ cs) =
    let (cs', destroyed) = destroy_swapchains cs in
    elim c.handle [
      | none ↦ (c ∷ cs', destroyed)
      | some handle ↦ (record c { handle = none } ∷ cs', handle ∷ destroyed)
    ]
