-- ===== src/Host/AccessUnits/Codes.antt =====
-- What the search for start codes of `loadH264TestStream` finds.
use robo_vr.Base.{
  ℕ, zero, suc, ◌+◌, ◌≤◌, ◌<◌, ◌≡◌, ◌⊎◌, inl, inr, refl, ap, ◌∙◌, ◌==◌, leb, if◌then◌else◌, Bool,
  true, false, List, Option, none, some, length, arith, Bool-cases,
}
use robo_vr.Host.AccessUnits.Split.{start_code_size, scan, find_start_code}

size_cases :
    (a b : Bool) (n offset : ℕ)
    → (a ≡ true → offset + 3 ≤ n)
    → (b ≡ true → offset + 4 ≤ n)
    → let size : ℕ = if a then 3 else if b then 4 else 0 in
      (size ≡ 0) ⊎ (3 ≤ size) × (offset + size ≤ n)
size_cases true b n offset h k = inr (omega arith, h refl)
size_cases false true n offset h k = inr (omega arith, k refl)
size_cases false false n offset h k = inl refl

pub start_code_size-cases :
    (bytes : List ℕ) (offset : ℕ)
    → (start_code_size bytes offset ≡ 0)
      ⊎ (3 ≤ start_code_size bytes offset) × (offset + start_code_size bytes offset ≤ length bytes)
unfolding start_code_size
start_code_size-cases bytes offset =
    size_cases _ _ (length bytes) offset (λ h. ground (arith, h)) (λ h. ground (arith, h))

-- Where a search from `i` ends: at the first start code, or behind the last one.
abbrev pub IsFirst : List ℕ → ℕ → Option ℕ → Type 0
IsFirst bytes i none = (k : ℕ) → i ≤ k → start_code_size bytes k ≡ 0
IsFirst bytes i (some j) =
    (i ≤ j)
    × (3 ≤ start_code_size bytes j)
    × (j + start_code_size bytes j ≤ length bytes)
    × ((k : ℕ) → i ≤ k → k < j → start_code_size bytes k ≡ 0)

past_end :
    (bytes : List ℕ) (i : ℕ) → length bytes < i + 3 → (k : ℕ) → i ≤ k → start_code_size bytes k ≡ 0
past_end bytes i h k le = elim (start_code_size-cases bytes k) [
  | inl e ↦ e
  | inr (a, b) ↦ absurd (omega arith)
]

one_more :
    (bytes : List ℕ) (i : ℕ) (o : Option ℕ)
    → start_code_size bytes i ≡ 0
    → IsFirst bytes (suc i) o
    → IsFirst bytes i o
one_more bytes i none e h = λ k le. by_order k le (Bool-cases (leb k i))
  where
    by_order :
        (k : ℕ) → i ≤ k → ((leb k i ≡ true) ⊎ (leb k i ≡ false)) → start_code_size bytes k ≡ 0
    by_order k le (inl a) = ap (start_code_size bytes) (ground (arith, a, le)) ∙ e
    by_order k le (inr b) = h k (ground (arith, b))
one_more bytes i (some j) e (le, size, fits, before) =
    (omega arith, size, fits, λ k ik kj. one_before k ik kj (Bool-cases (leb k i)))
  where
    one_before :
        (k : ℕ)
        → i ≤ k
        → k < j
        → ((leb k i ≡ true) ⊎ (leb k i ≡ false))
        → start_code_size bytes k ≡ 0
    one_before k ik kj (inl a) = ap (start_code_size bytes) (ground (arith, a, ik)) ∙ e
    one_before k ik kj (inr b) = before k (ground (arith, b)) kj

scan_step :
    (bytes : List ℕ) (i : ℕ) (rest : Option ℕ)
    → IsFirst bytes (suc i) rest
    → IsFirst bytes i (
        if leb (i + 3) (length bytes)
        then (if start_code_size bytes i == 0 then rest else some i)
        else none)
scan_step bytes i rest h = by_tests _ refl _ refl
  where
    by_tests :
        (a : Bool)
        → leb (i + 3) (length bytes) ≡ a
        → (b : Bool) → (start_code_size bytes i == 0) ≡ b
        → IsFirst bytes i (if a then (if b then rest else some i) else none)
    by_tests true ea true eb = one_more bytes i rest (ground (arith, eb)) h
    by_tests true ea false eb = elim (start_code_size-cases bytes i) [
      | inl e ↦ absurd (ground (arith, e, eb))
      | inr (size, fits) ↦ (omega arith, size, fits, λ k ik ki. absurd (omega arith))
    ]
    by_tests false ea b eb = past_end bytes i (ground (arith, ea))

scan-IsFirst :
    (rounds : ℕ) (bytes : List ℕ) (i : ℕ)
    → length bytes ≤ i + rounds
    → IsFirst bytes i (scan rounds bytes i)
unfolding scan
scan-IsFirst zero bytes i h = past_end bytes i (omega arith)
scan-IsFirst (suc rounds) bytes i h =
    scan_step bytes i (scan rounds bytes (suc i)) (scan-IsFirst rounds bytes (suc i) (omega arith))

-- The search returns the first start code at or after the offset, which ends inside the file, or
-- `npos` when there is none.
pub find_start_code-IsFirst :
    (bytes : List ℕ) (offset : ℕ) → IsFirst bytes offset (find_start_code bytes offset)
unfolding find_start_code
find_start_code-IsFirst bytes offset = scan-IsFirst (length bytes) bytes offset (omega arith)
