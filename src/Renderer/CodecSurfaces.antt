-- ===== src/Renderer/CodecSurfaces.antt =====
-- `createCodecSurfaceResources`, which publishes the surfaces of the codecs, and the part of `cleanup`
-- that withdraws and releases them. A reference or a window is a number. `createCodecSurfaceResources`
-- is called once, on the null pointers that the class starts with.
use robo_vr.Base.{
  ℕ, ◌+◌, ◌%◌, ◌^◌, if◌then◌else◌, Bool, true, false, List, [], ◌∷◌, ◌++◌, Option, none, some,
}
use robo_vr.Video.Display.{Display}

-- The fields of one eye: `surface_textures_`, `surfaces_` and `codec_windows_`.
pub record EyeSurface : Type 0 where
  pub surface_texture : Option ℕ
  pub surface : Option ℕ
  pub codec_window : Option ℕ

abbrev pub no_surface : EyeSurface
no_surface = record { surface_texture = none; surface = none; codec_window = none }

pub record Resources : Type 0 where
  pub bridge_class : Option ℕ
  pub left : EyeSurface
  pub right : EyeSurface

abbrev pub no_resources : Resources
no_resources = record { bridge_class = none; left = no_surface; right = no_surface }

-- What was made or released, in the order of the calls.
pub record References : Type 0 where
  pub classes : List ℕ
  pub surface_textures : List ℕ
  pub surfaces : List ℕ
  pub windows : List ℕ

abbrev pub no_references : References
no_references = record { classes = []; surface_textures = []; surfaces = []; windows = [] }

-- What the Java side gives for one eye; `none`: null or an exception.
pub record EyeAnswers : Type 0 where
  pub texture : Option ℕ
  pub surface : Option ℕ
  pub window : Option ℕ

-- `has_methods`: none of the five method lookups gives null.
pub record JavaAnswers : Type 0 where
  pub bridge_class : Option ℕ
  pub has_methods : Bool
  pub left : EyeAnswers
  pub right : EyeAnswers

-- The body of the loop: the eye, what was made so far, and whether the loop goes on.
unfoldable pub create_eye : EyeAnswers → References → EyeSurface × References × Bool
create_eye a m = elim a.texture [
  | none ↦ (no_surface, m, false)
  | some t ↦
      let m₁ : References = record m { surface_textures = m.surface_textures ++ t ∷ [] } in
      elim a.surface [
        | none ↦ (record no_surface { surface_texture = some t }, m₁, false)
        | some u ↦
            let m₂ : References = record m₁ { surfaces = m₁.surfaces ++ u ∷ [] } in
            elim a.window [
              | none ↦ (
                record { surface_texture = some t; surface = some u; codec_window = none },
                m₂,
                false,
              )
              | some w ↦ (
                record { surface_texture = some t; surface = some u; codec_window = some w },
                record m₂ { windows = m₂.windows ++ w ∷ [] },
                true,
              )
            ]
      ]
]

-- The part behind the lookups: both rounds of the loop.
unfoldable pub create_eyes : JavaAnswers → Resources → References → Resources × References × Bool
unfolding create_eye
create_eyes a r m =
    let (left, m₁, ok) = create_eye a.left m in
    let (right, m₂, ok') = create_eye a.right m₁ in
    if ok
    then (record r { left = left; right = right }, m₂, ok')
    else (record r { left = left }, m₁, false)

-- `++g_codec_surface_generation`
abbrev pub next_generation : {C : Type 0} → Display C → ℕ
next_generation s = (s.codec_surface_generation + 1) % 2 ^ 32

module _ {C : Type 0} where
  -- The assignments under the lock at the end.
  unfoldable pub publish_surfaces : Resources → Display C → Display C
  publish_surfaces r s = record s {
    codec_surfaces = record {
      left_window = r.left.codec_window;
      right_window = r.right.codec_window;
      generation = next_generation s;
    };
    codec_surface_generation = next_generation s;
  }

  -- The resources, what was made, the globals, and the result.
  unfoldable pub create_codec_surface_resources :
      JavaAnswers → Display C → Resources × References × Display C × Bool
  unfolding create_eyes publish_surfaces
  create_codec_surface_resources a s = elim a.bridge_class [
    | none ↦ (no_resources, no_references, s, false)
    | some class ↦
        let r : Resources = record no_resources { bridge_class = some class } in
        let m : References = record no_references { classes = class ∷ [] } in
        if a.has_methods
        then (let (r', m', ok) = create_eyes a r m in
            if ok then (r', m', publish_surfaces r' s, true) else (r', m', s, false))
        else (r, m, s, false)
  ]

-- A pointer that is not null.
abbrev pub not_null : Option ℕ → List ℕ
not_null none = []
not_null (some x) = x ∷ []

-- The windows, which are released without Java as well.
unfoldable pub release_windows : Resources → Resources × List ℕ
release_windows r = (
  record r {
    left = record r.left { codec_window = none };
    right = record r.right { codec_window = none };
  },
  not_null r.left.codec_window ++ not_null r.right.codec_window,
)

unfoldable pub release_references : Resources → Resources × References
release_references r = (
  record {
    bridge_class = none;
    left = record r.left { surface_texture = none; surface = none };
    right = record r.right { surface_texture = none; surface = none };
  },
  record {
    classes = not_null r.bridge_class;
    surface_textures = not_null r.left.surface_texture ++ not_null r.right.surface_texture;
    surfaces = not_null r.left.surface ++ not_null r.right.surface;
    windows = [];
  },
)

-- `has_java`: `GetEnv` gives an environment.
unfoldable pub cleanup_surfaces :
    {C : Type 0} → Bool → Resources → Display C → Resources × References × Display C
unfolding release_windows release_references
cleanup_surfaces has_java r s =
    let (r', m) = if has_java then release_references r else (r, no_references) in
    let (r'', windows) = release_windows r' in
    (
      r'',
      record m { windows = windows },
      record s {
        codec_surfaces = record { left_window = none; right_window = none; generation = 0 };
        codec_surface_generation = next_generation s;
      },
    )
