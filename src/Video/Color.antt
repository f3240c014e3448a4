-- ===== src/Video/Color.antt =====
-- `clampByte` and `yuvToRgb` of quest_client/app/src/main/cpp/video_decoder.cpp, on signed integers.
-- The largest magnitude of a sum is below 2 ^ 18, so `int` does not overflow.
use robo_vr.Base.{
  ℕ, ◌+◌, ◌-◌, ◌*◌, ◌/◌, ◌≡◌, arith, ltb, if◌then◌else◌, min, ℤ, pos, negsuc, ◌+ℤ◌, ◌-ℤ◌, ◌*ℤ◌,
  pos_part, neg_part, ap, +ℤ_parts, -ℤ_parts, *ℤ_pos_parts,
}

-- `std::clamp(value, 0, 255)`
unfoldable pub clamp_byte : ℤ → ℕ
clamp_byte (pos n) = if ltb 255 n then 255 else n
clamp_byte (negsuc n) = 0

-- `value >> 8` on a two's complement `int`
unfoldable pub shift_right_8 : ℤ → ℤ
shift_right_8 (pos n) = pos (n / 256)
shift_right_8 (negsuc n) = negsuc (n / 256)

pub record Rgb : Type 0 where
  pub r : ℕ
  pub g : ℕ
  pub b : ℕ

unfoldable pub red_sum : ℕ → ℕ → ℕ → ℤ
red_sum y u v = pos 298 *ℤ (pos y -ℤ pos 16) +ℤ pos 409 *ℤ (pos v -ℤ pos 128) +ℤ pos 128

unfoldable pub green_sum : ℕ → ℕ → ℕ → ℤ
green_sum y u v =
    pos 298 *ℤ (pos y -ℤ pos 16)
    -ℤ pos 100 *ℤ (pos u -ℤ pos 128)
    -ℤ pos 208 *ℤ (pos v -ℤ pos 128)
    +ℤ pos 128

unfoldable pub blue_sum : ℕ → ℕ → ℕ → ℤ
blue_sum y u v = pos 298 *ℤ (pos y -ℤ pos 16) +ℤ pos 516 *ℤ (pos u -ℤ pos 128) +ℤ pos 128

unfoldable pub yuv_to_rgb : ℕ → ℕ → ℕ → Rgb
unfolding clamp_byte shift_right_8 red_sum green_sum blue_sum
yuv_to_rgb y u v = record {
  r = clamp_byte (shift_right_8 (red_sum y u v));
  g = clamp_byte (shift_right_8 (green_sum y u v));
  b = clamp_byte (shift_right_8 (blue_sum y u v));
}

-- The conversion in unsigned arithmetic: the offsets joined, subtraction that stops at 0, one bound.
abbrev pub rgb_reference : ℕ → ℕ → ℕ → Rgb
rgb_reference y u v = record {
  r = min 255 ((298 * y + 409 * v + 128 - 57120) / 256);
  g = min 255 ((298 * y + 39552 - (100 * u + 208 * v + 4768)) / 256);
  b = min 255 ((298 * y + 516 * u + 128 - 70816) / 256);
}

clamp_byte-shift :
    (z : ℤ) (a b : ℕ)
    → pos_part z + b ≡ neg_part z + a
    → clamp_byte (shift_right_8 z) ≡ min 255 ((a - b) / 256)
unfolding clamp_byte shift_right_8
clamp_byte-shift (pos n) a b e = ground arith
clamp_byte-shift (negsuc n) a b e = ground arith

-- The parts of a sum `k * (x - o)`.
scaled : ℕ → ℕ → ℕ → ℤ
scaled k x o = pos k *ℤ (pos x -ℤ pos o)

scaled_parts : (k x o : ℕ) → pos_part (scaled k x o) + k * o ≡ neg_part (scaled k x o) + k * x
unfolding scaled
scaled_parts k x o =
    let d = pos x -ℤ pos o in
    let e : k * (pos_part d + o) ≡ k * (neg_part d + x) =
      ap (λ (n : ℕ). k * n) (omega (arith, -ℤ_parts (pos x) (pos o))) in
    omega (arith, *ℤ_pos_parts k d, e)

red-eq : (y u v : ℕ) → clamp_byte (shift_right_8 (red_sum y u v)) ≡ (rgb_reference y u v).r
unfolding red_sum scaled
red-eq y u v = clamp_byte-shift (red_sum y u v) (298 * y + 409 * v + 128) 57120 (
    omega (
      arith,
      +ℤ_parts (scaled 298 y 16 +ℤ scaled 409 v 128) (pos 128),
      +ℤ_parts (scaled 298 y 16) (scaled 409 v 128),
      scaled_parts 298 y 16,
      scaled_parts 409 v 128,
    ))

green-eq : (y u v : ℕ) → clamp_byte (shift_right_8 (green_sum y u v)) ≡ (rgb_reference y u v).g
unfolding green_sum scaled
green-eq y u v = clamp_byte-shift (green_sum y u v) (298 * y + 39552) (100 * u + 208 * v + 4768) (
    omega (
      arith,
      +ℤ_parts (scaled 298 y 16 -ℤ scaled 100 u 128 -ℤ scaled 208 v 128) (pos 128),
      -ℤ_parts (scaled 298 y 16 -ℤ scaled 100 u 128) (scaled 208 v 128),
      -ℤ_parts (scaled 298 y 16) (scaled 100 u 128),
      scaled_parts 298 y 16,
      scaled_parts 100 u 128,
      scaled_parts 208 v 128,
    ))

blue-eq : (y u v : ℕ) → clamp_byte (shift_right_8 (blue_sum y u v)) ≡ (rgb_reference y u v).b
unfolding blue_sum scaled
blue-eq y u v = clamp_byte-shift (blue_sum y u v) (298 * y + 516 * u + 128) 70816 (
    omega (
      arith,
      +ℤ_parts (scaled 298 y 16 +ℤ scaled 516 u 128) (pos 128),
      +ℤ_parts (scaled 298 y 16) (scaled 516 u 128),
      scaled_parts 298 y 16,
      scaled_parts 516 u 128,
    ))

-- `yuvToRgb` is the linear conversion in 256ths, rounded and then clamped to bytes, without signed
-- numbers, on all arguments.
pub yuv_to_rgb-rgb_reference : (y u v : ℕ) → yuv_to_rgb y u v ≡ rgb_reference y u v
unfolding yuv_to_rgb
yuv_to_rgb-rgb_reference y u v =
    λ i. record { r = red-eq y u v i; g = green-eq y u v i; b = blue-eq y u v i }
