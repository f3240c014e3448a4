-- ===== src/Video/Decoder/OutputReads.antt =====
-- The loops of `drainOutput` over a frame read inside the buffer.
use robo_vr.Base.{
  ℕ, zero, suc, ◌/◌, ◌%◌, ◌^◌, ◌+◌, ◌*◌, ◌≤◌, ◌<◌, ◌≡◌, refl, ap, ◌∙◌, ltb, if◌then◌else◌, Bool,
  true, false, List, [], ◌++◌, Option, some, get_elem?, get_elem?-within, length, length-append,
  arith,
}
use native.Mathlib.Nat.{mul-le-mul_right, mul_comm, add-mul}
use robo_vr.Video.Decoder.Output.{
  all_rounds, is_format, Planes, y_plane_size, both, read_pair, tested_pair, read_chroma, pixel,
  read_pixel, read_frame,
}

-- A computation that reads no byte outside, and gives `n` bytes.
abbrev pub Gives : Option (List ℕ) → ℕ → Type 0
Gives o n = (bytes : List ℕ) × (o ≡ some bytes) × (length bytes ≡ n)

all_rounds-Gives :
    (count start m : ℕ) (round : ℕ → Option (List ℕ))
    → ((i : ℕ) → start ≤ i → i < start + count → Gives (round i) m)
    → Gives (all_rounds count start round) (count * m)
unfolding all_rounds
all_rounds-Gives zero start m round h = ([], refl, omega arith)
all_rounds-Gives (suc count) start m round h =
    let (bytes, e, n) = h start (omega arith) (omega arith) in
    let (later, g, k) =
      all_rounds-Gives count (suc start) m round
        (λ i a b. h i (omega (arith, a)) (omega (arith, b))) in
    (
      bytes ++ later,
      ap (λ o. both (λ now later. now ++ later) o (all_rounds count (suc start) round)) e
          ∙ ap (both (λ now later. now ++ later) (some bytes)) g,
      omega (arith, length-append bytes later, n, k),
    )

read_pair-within :
    (bytes : List ℕ) (i j : ℕ)
    → i < length bytes
    → j < length bytes
    → (p : ℕ × ℕ) × (read_pair bytes i j ≡ some p)
read_pair-within bytes i j h k =
    let (u, e) = get_elem?-within bytes i (omega (arith, h)) in
    let (v, g) = get_elem?-within bytes j (omega (arith, k)) in
    (
      (u, v),
      ap (λ o. both (λ u v. (u, v)) o (get_elem? bytes j)) e ∙ ap (both (λ u v. (u, v)) (some u)) g,
    )

IsRead : {A : Type 0} → Option A → Type 0
IsRead {A} o = (a : A) × (o ≡ some a)

tested_pair-IsRead :
    (bytes : List ℕ) (i j : ℕ) → i ≤ j → j < 2 ^ 64 → IsRead (tested_pair bytes i j)
unfolding IsRead
tested_pair-IsRead bytes i j le small = by_test (ltb (j % 2 ^ 64) (length bytes)) refl
  where
    by_test :
        (a : Bool)
        → ltb (j % 2 ^ 64) (length bytes) ≡ a
        → IsRead (if a then read_pair bytes i j else some (128, 128))
    by_test true e =
        let inside : j < length bytes = ground (arith, e, small) in
        read_pair-within bytes i j (omega (arith, le, inside)) inside
    by_test false e = ((128, 128), refl)

if-IsRead :
    {A : Type 0} (b : Bool) (x y : Option A) → IsRead x → IsRead y → IsRead (if b then x else y)
if-IsRead true x y h k = h
if-IsRead false x y h k = k

-- Two numbers that fit into an `int32_t` have a product that fits into a `std::size_t`.
pub product_small : (a b : ℕ) → a < 2 ^ 31 → b < 2 ^ 31 → a * b < 2 ^ 62
product_small a b h k =
    let up : a * b ≤ 2 ^ 31 * b = mul-le-mul_right b (omega (arith, h)) in omega (arith, up, k)

-- The stride, the slice height and the offset are those of an `int32_t` that is not negative.
abbrev pub IsSmall : Planes → Type 0
IsSmall p = (p.stride < 2 ^ 31) × (p.slice_height < 2 ^ 31) × (p.offset < 2 ^ 31)

read_chroma-IsRead :
    (p : Planes) (y x : ℕ) → IsSmall p → y < 2 ^ 31 → x < 2 ^ 31 → IsRead (read_chroma p y x)
unfolding read_chroma IsRead
read_chroma-IsRead p y x (s, t, o) h k =
    let half = p.stride / 2 in
    let size : p.stride * p.slice_height < 2 ^ 62 = product_small p.stride p.slice_height s t in
    let row : y / 2 * p.stride < 2 ^ 62 = product_small (y / 2) p.stride (omega (arith, h)) s in
    let chroma : half * (p.slice_height / 2) < 2 ^ 62 =
      product_small half (p.slice_height / 2) (omega (arith, s)) (omega (arith, t)) in
    let half_row : y / 2 * half < 2 ^ 62 =
      product_small (y / 2) half (omega (arith, h)) (omega (arith, s)) in
    if-IsRead (is_format p.color_format 21) _ _
      (tested_pair-IsRead p.bytes _ _ (omega arith) (omega (arith, size, row, o, k)))
      (if-IsRead (is_format p.color_format 19) _ _
        (tested_pair-IsRead p.bytes _ _ (omega arith) (omega (arith, size, chroma, half_row, o, k)))
        neutral)
  where
    neutral : IsRead {A = ℕ × ℕ} (some (128, 128))
    neutral = ((128, 128), refl)

-- Row y and column x of a frame that the planes have room for.
luma-within :
    (p : Planes) (y x : ℕ)
    → p.offset + y_plane_size p ≤ length p.bytes
    → suc y ≤ p.slice_height
    → suc x ≤ p.stride
    → IsSmall p
    → p.offset + (y * p.stride + x) % 2 ^ 64 < length p.bytes
luma-within p y x fits h k (s, t, o) =
    let size : p.stride * p.slice_height < 2 ^ 62 = product_small p.stride p.slice_height s t in
    let rows : suc y * p.stride ≤ p.slice_height * p.stride = mul-le-mul_right p.stride h in
    omega (arith, fits, k, rows, size, mul_comm p.slice_height p.stride, add-mul 1 y p.stride)

pixel-length : (y_value : ℕ) (c : ℕ × ℕ) → length (pixel y_value c) ≡ 4
unfolding pixel
pixel-length y_value c = refl

-- The planes hold the rows and columns of the frame.
abbrev pub HasRoom : Planes → ℕ → ℕ → Type 0
HasRoom p width height =
    (p.offset + y_plane_size p ≤ length p.bytes)
    × (width ≤ p.stride)
    × (height ≤ p.slice_height)
    × IsSmall p

pub read_frame-Gives :
    (p : Planes) (width height : ℕ)
    → HasRoom p width height
    → Gives (read_frame p width height) (height * (width * 4))
unfolding read_frame read_pixel IsRead
read_frame-Gives p width height (fits, wide, high, small) =
    all_rounds-Gives height 0 (width * 4) _
      (λ y _ h. all_rounds-Gives width 0 4 (read_pixel p y) (λ x _ k. at_pixel y x h k))
  where
    at_pixel : (y x : ℕ) → y < 0 + height → x < 0 + width → Gives (read_pixel p y x) 4
    at_pixel y x h k =
        let luma = luma-within p y x fits (omega (arith, h, high)) (omega (arith, k, wide)) small in
        let (y_value, e) = get_elem?-within p.bytes (p.offset + (y * p.stride + x) % 2 ^ 64) luma in
        let (c, g) =
          read_chroma-IsRead p y x small (omega (arith, h, high, small.1))
            (omega (arith, k, wide, small.0)) in
        (
          pixel y_value c,
          ap (λ o. both pixel o (read_chroma p y x)) e ∙ ap (both pixel (some y_value)) g,
          pixel-length y_value c,
        )
