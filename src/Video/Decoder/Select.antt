-- ===== src/Video/Decoder/Select.antt =====
-- The loops of `decode` that record what the codecs gave and choose the frame to publish.
use robo_vr.Base.{
  ℕ, ◌==◌, ltb, leb, if◌then◌else◌, Bool, true, false, ◌||◌, ◌&&◌, not, List, [], ◌∷◌, Option, none,
  some, length,
}
use robo_vr.Base.Map.{lookup, insert}

-- `DecodedEyeFrame`
pub record DecodedEyeFrame : Type 0 where
  pub rgba : List ℕ
  pub frame_index : ℕ
  pub valid : Bool

-- A loop `for (frame_index : indices) ready[frame_index] = true`.
unfoldable pub mark_ready : List ℕ → List (ℕ × Bool) → List (ℕ × Bool)
mark_ready [] m = m
mark_ready (k ∷ ks) m = mark_ready ks (insert k true m)

abbrev pub is_true : Option Bool → Bool
is_true none = false
is_true (some b) = b

-- Tests of the two selection loops: already published, and better than the best so far.
abbrev pub is_old : Bool → ℕ → ℕ → Bool
is_old has_published last k = has_published && leb k last

abbrev pub newer : ℕ → Option ℕ → Option ℕ
newer k none = some k
newer k (some best) = if ltb best k then some k else some best

abbrev pub older : ℕ → Option ℕ → Option ℕ
older k none = some k
older k (some best) = if ltb k best then some k else some best

-- The newest frame that both eyes have and that comes after the last one published.
unfoldable pub select_surface : Bool → ℕ → List (ℕ × Bool) → Option ℕ → List (ℕ × Bool) → Option ℕ
select_surface has last right best [] = best
select_surface has last right best ((k, ready) ∷ left) =
    select_surface has last right
      (if not ready || is_old has last k
        then best
        else if not (is_true (lookup k right))
        then best
        else newer k best)
      left

-- The oldest such frame, of two images of the expected size.
unfoldable pub select_cpu :
    ℕ → Bool → ℕ → List (ℕ × List ℕ) → Option ℕ → List (ℕ × List ℕ) → Option ℕ
select_cpu expected has last right best [] = best
select_cpu expected has last right best ((k, left_rgba) ∷ left) =
    select_cpu expected has last right
      (if is_old has last k then best else elim (lookup k right) [
        | none ↦ best
        | some right_rgba ↦
            if not (length left_rgba == expected) || not (length right_rgba == expected)
            then best
            else older k best
      ])
      left

-- The valid frames go into the map.
unfoldable pub store_frames : List DecodedEyeFrame → List (ℕ × List ℕ) → List (ℕ × List ℕ)
store_frames [] m = m
store_frames (e ∷ es) m = store_frames es (if e.valid then insert e.frame_index e.rgba m else m)

abbrev pub pixels_of : Option (List ℕ) → List ℕ
pixels_of none = []
pixels_of (some rgba) = rgba
