-- ===== src/Protocol/Wire.antt =====
-- The memory image of a struct of fixed-width integers on a little-endian machine, which is what
-- `std::memcpy` copies in proto/quest3_teleop_protocol.h.
use robo_vr.Base.{
  ℕ, zero, suc, ◌+◌, ◌-◌, ◌*◌, ◌/◌, ◌%◌, ◌^◌, ◌<◌, ◌≡◌, refl, List, [], ◌∷◌, arith, length, take,
  drop, All, ltb, if◌then◌else◌, ℤ, pos, negsuc, ◌≤ℤ◌,
}
use native.Mathlib.Nat.{pow-suc}

abbrev pub IsByte : ℕ → Type 0
IsByte b = b < 256

-- The `n` bytes of an unsigned integer of that width, lowest first.
unfoldable pub le_bytes : ℕ → ℕ → List ℕ
le_bytes zero v = []
le_bytes (suc n) v = (v % 256) ∷ le_bytes n (v / 256)

unfoldable pub le_value : List ℕ → ℕ
le_value [] = 0
le_value (b ∷ bs) = b + 256 * le_value bs

-- The unsigned integer in the `n` bytes from offset `at` on.
unfoldable pub field : List ℕ → ℕ → ℕ → ℕ
unfolding le_value
field bs at n = le_value (take n (drop at bs))

-- The bit pattern of an `int64_t`, and the integer that a pattern stands for.
unfoldable pub word64 : ℤ → ℕ
word64 (pos n) = n % 2 ^ 64
word64 (negsuc n) = (2 ^ 64 - 1) - n % 2 ^ 64

unfoldable pub int64 : ℕ → ℤ
int64 w = if ltb w (2 ^ 63) then pos w else negsuc (2 ^ 64 - 1 - w)

abbrev pub IsI64 : ℤ → Type 0
IsI64 t = (negsuc (2 ^ 63 - 1) ≤ℤ t) × (t ≤ℤ pos (2 ^ 63 - 1))

pub le_bytes-IsByte : (n v : ℕ) → All IsByte (le_bytes n v)
unfolding le_bytes
le_bytes-IsByte zero v = tt
le_bytes-IsByte (suc n) v = (omega arith, le_bytes-IsByte n (v / 256))

pub length-le_bytes : (n v : ℕ) → length (le_bytes n v) ≡ n
unfolding le_bytes
length-le_bytes zero v = refl
length-le_bytes (suc n) v = omega (arith, length-le_bytes n (v / 256))

pub le_value-le_bytes : (n v : ℕ) → v < 256 ^ n → le_value (le_bytes n v) ≡ v
unfolding le_bytes le_value
le_value-le_bytes zero v h = omega arith
le_value-le_bytes (suc n) v h =
    omega (arith, le_value-le_bytes n (v / 256) (omega (arith, pow-suc 256 n)))

pub word64-lt : (t : ℤ) → word64 t < 2 ^ 64
unfolding word64
word64-lt (pos n) = omega arith
word64-lt (negsuc n) = omega arith

pub int64-word64 : (t : ℤ) → IsI64 t → int64 (word64 t) ≡ t
unfolding word64 int64
int64-word64 (pos n) h = ground arith
int64-word64 (negsuc n) h = ground arith
