-- ===== src/Base/Map.antt =====
-- Maps with numbers for keys as association lists, under the operations that the sources use of
-- `std::unordered_map`.
use Prim.Native.Nat.{ℕ}
use mathlib.Core.Path.{◌≡◌, refl}
use mathlib.Core.Bool.{Bool}
use mathlib.Core.List.{List, [], ◌∷◌}
use mathlib.Core.Option.{Option, none, some}
use native.Mathlib.Omega.{arith}
use robo_vr.Base.Tests.{◌==◌, if◌then◌else◌}

module _ {V : Type 0} where
  unfoldable pub lookup : ℕ → List (ℕ × V) → Option V
  lookup key [] = none
  lookup key ((held, value) ∷ rest) = if held == key then some value else lookup key rest

  -- `m[key] = value`
  unfoldable pub insert : ℕ → V → List (ℕ × V) → List (ℕ × V)
  insert key value [] = (key, value) ∷ []
  insert key value ((held, old) ∷ rest) =
      if held == key then (held, value) ∷ rest else (held, old) ∷ insert key value rest

  -- The loop that erases every entry whose key passes a test.
  unfoldable pub erase_if : (ℕ → Bool) → List (ℕ × V) → List (ℕ × V)
  erase_if gone [] = []
  erase_if gone ((held, old) ∷ rest) =
      if gone held then erase_if gone rest else (held, old) ∷ erase_if gone rest

  pub lookup-insert :
      (key other : ℕ) (value : V) (m : List (ℕ × V))
      → lookup other (insert key value m) ≡ (if key == other then some value else lookup other m)
  unfolding insert lookup
  lookup-insert key other value [] = refl
  lookup-insert key other value ((held, old) ∷ rest) =
      ground (arith, lookup-insert key other value rest)

  pub lookup-erase_if :
      (gone : ℕ → Bool) (key : ℕ) (m : List (ℕ × V))
      → lookup key (erase_if gone m) ≡ (if gone key then none else lookup key m)
  unfolding lookup erase_if
  lookup-erase_if gone key [] = ground arith
  lookup-erase_if gone key ((held, old) ∷ rest) = ground (arith, lookup-erase_if gone key rest)
