-- ===== src/Host/AccessUnits/Slice.antt =====
-- `read_first_mb_in_slice` of `loadH264TestStream`: the escape bytes of a NAL unit, and the unsigned
-- Exp-Golomb number that a slice starts with.
use robo_vr.Base.{
  ℕ, zero, suc, ◌+◌, ◌-◌, ◌*◌, ◌/◌, ◌%◌, ◌^◌, ◌==◌, leb, if◌then◌else◌, Bool, true, false, ◌&&◌,
  List, [], ◌∷◌, Option, none, some, get_elem?,
}

-- `size` is how many bytes `rbsp` has so far.
unfoldable pub unescape : ℕ → List ℕ → List ℕ
unescape size [] = []
unescape size (a ∷ []) = if leb 32 size then [] else a ∷ []
unescape size (a ∷ b ∷ []) = if leb 32 size then [] else a ∷ unescape (suc size) (b ∷ [])
unescape size (a ∷ b ∷ c ∷ rest) =
    let escaped = unescape (size + 2) rest in
    let plain = unescape (suc size) (b ∷ c ∷ rest) in
    if leb 32 size then [] else if a == 0 && b == 0 && c == 3 then 0 ∷ 0 ∷ escaped else a ∷ plain

-- `none`: `bit_offset >= rbsp.size() * 8`.
unfoldable pub bit_at : List ℕ → ℕ → Option Bool
bit_at rbsp bit_offset = elim (get_elem? rbsp (bit_offset / 8)) [
  | none ↦ none
  | some byte ↦ some (byte / 2 ^ (7 - bit_offset % 8) % 2 == 1)
]

abbrev pub on_bit : (ℕ → ℕ → Option (ℕ × ℕ)) → ℕ → ℕ → Option Bool → Option (ℕ × ℕ)
on_bit more bit_offset leading_zero_bits none = some (bit_offset, leading_zero_bits)
on_bit more bit_offset leading_zero_bits (some true) = some (suc bit_offset, leading_zero_bits)
on_bit more bit_offset leading_zero_bits (some false) =
    more (suc bit_offset) (suc leading_zero_bits)

-- The offset behind the first set bit and the zeros before it. Of the 32 rounds each counts a zero
-- more, so that `leading_zero_bits > 31` is where they end.
unfoldable pub count_zeros : ℕ → List ℕ → ℕ → ℕ → Option (ℕ × ℕ)
count_zeros zero rbsp bit_offset leading_zero_bits = none
count_zeros (suc rounds) rbsp bit_offset leading_zero_bits =
    on_bit (count_zeros rounds rbsp) bit_offset leading_zero_bits (bit_at rbsp bit_offset)

abbrev pub with_bit : (ℕ → Option ℕ) → ℕ → Option Bool → Option ℕ
with_bit more suffix none = none
with_bit more suffix (some bit) = more ((suffix * 2 % 2 ^ 32 + (if bit then 1 else 0)) % 2 ^ 32)

unfoldable pub read_suffix : ℕ → List ℕ → ℕ → ℕ → Option ℕ
read_suffix zero rbsp bit_offset suffix = some suffix
read_suffix (suc count) rbsp bit_offset suffix =
    with_bit (read_suffix count rbsp (suc bit_offset)) suffix (bit_at rbsp bit_offset)

unfoldable pub read_exp_golomb : List ℕ → Option ℕ
read_exp_golomb rbsp = elim (count_zeros 32 rbsp 0 0) [
  | none ↦ none
  | some (bit_offset, leading_zero_bits) ↦ elim (read_suffix leading_zero_bits rbsp bit_offset 0) [
    | none ↦ none
    | some suffix ↦ some ((2 ^ leading_zero_bits - 1 + suffix) % 2 ^ 32)
  ]
]

-- The first byte of `nal`, its header, is left out.
unfoldable pub read_first_mb_in_slice : List ℕ → Option ℕ
read_first_mb_in_slice [] = none
read_first_mb_in_slice (header ∷ body) = read_exp_golomb (unescape 0 body)
