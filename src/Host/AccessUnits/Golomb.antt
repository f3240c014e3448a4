-- ===== src/Host/AccessUnits/Golomb.antt =====
-- The Exp-Golomb number that `read_first_mb_in_slice` reads, against the bits of its code word.
use robo_vr.Base.{
  ℕ, zero, suc, ◌+◌, ◌-◌, ◌*◌, ◌/◌, ◌%◌, ◌^◌, ◌≤◌, ◌<◌, ◌≡◌, refl, ap, sym, ◌∙◌, ◌==◌,
  if◌then◌else◌, Bool, true, false, List, [], ◌∷◌, ◌++◌, Option, none, some, get_elem?, drop,
  replicate, length, arith, append_assoc,
}
use native.Mathlib.Nat.{two-pow-succ, pow-le-pow_right}
use robo_vr.Host.AccessUnits.Slice.{
  unescape, bit_at, on_bit, with_bit, count_zeros, read_suffix, read_exp_golomb,
  read_first_mb_in_slice,
}

abbrev bit : ℕ → ℕ → Bool
bit byte k = byte / 2 ^ (7 - k) % 2 == 1

-- The bits of the bytes, the highest of each first.
abbrev pub bits : List ℕ → List Bool
bits [] = []
bits (b ∷ bytes) =
    bit b 0 ∷ bit b 1 ∷ bit b 2 ∷ bit b 3 ∷ bit b 4 ∷ bit b 5 ∷ bit b 6 ∷ bit b 7 ∷ bits bytes

-- The number that a string of bits writes, the highest first.
abbrev pub value : List Bool → ℕ
value [] = 0
value (b ∷ bs) = (if b then 1 else 0) * 2 ^ length bs + value bs

-- The code word of Exp-Golomb: as many zeros as `suffix` has bits, a one, and `suffix`.
abbrev pub code_word : List Bool → List Bool
code_word suffix = replicate (length suffix) false ++ true ∷ suffix

bit_at-next : (b : ℕ) (bytes : List ℕ) (k : ℕ) → bit_at (b ∷ bytes) (8 + k) ≡ bit_at bytes k
unfolding bit_at
bit_at-next b bytes k =
    let q : (8 + k) / 8 ≡ suc (k / 8) = omega arith in
    let r : (8 + k) % 8 ≡ k % 8 = omega arith in
    ap
      (λ i. elim (get_elem? (b ∷ bytes) i) [
        | none ↦ none
        | some byte ↦ some (byte / 2 ^ (7 - (8 + k) % 8) % 2 == 1)
      ])
      q
    ∙ ap
        (λ i. elim (get_elem? bytes (k / 8)) [
          | none ↦ none
          | some byte ↦ some (byte / 2 ^ (7 - i) % 2 == 1)
        ])
        r

bit_at-bits : (bytes : List ℕ) (k : ℕ) → bit_at bytes k ≡ get_elem? (bits bytes) k
unfolding bit_at
bit_at-bits [] k = refl
bit_at-bits (b ∷ bytes) zero = refl
bit_at-bits (b ∷ bytes) (suc zero) = refl
bit_at-bits (b ∷ bytes) (suc (suc zero)) = refl
bit_at-bits (b ∷ bytes) (suc (suc (suc zero))) = refl
bit_at-bits (b ∷ bytes) (suc (suc (suc (suc zero)))) = refl
bit_at-bits (b ∷ bytes) (suc (suc (suc (suc (suc zero))))) = refl
bit_at-bits (b ∷ bytes) (suc (suc (suc (suc (suc (suc zero)))))) = refl
bit_at-bits (b ∷ bytes) (suc (suc (suc (suc (suc (suc (suc zero))))))) = refl
bit_at-bits (b ∷ bytes) (suc (suc (suc (suc (suc (suc (suc (suc k)))))))) =
    let e : suc (suc (suc (suc (suc (suc (suc (suc k))))))) ≡ 8 + k = omega arith in
    ap (bit_at (b ∷ bytes)) e ∙ bit_at-next b bytes k ∙ bit_at-bits bytes k

next_bit :
    {A : Type 0} (xs : List A) (k : ℕ) (y : A) (ys : List A)
    → drop k xs ≡ y ∷ ys
    → (get_elem? xs k ≡ some y) × (drop (suc k) xs ≡ ys)
next_bit [] zero y ys e = absurd (cc)
next_bit [] (suc k) y ys e = absurd (cc)
next_bit (x ∷ xs) zero y ys e = (cc, cc)
next_bit (x ∷ xs) (suc k) y ys e = next_bit xs k y ys e

reads :
    (rbsp : List ℕ) (k : ℕ) (b : Bool) (bs : List Bool)
    → drop k (bits rbsp) ≡ b ∷ bs
    → (bit_at rbsp k ≡ some b) × (drop (suc k) (bits rbsp) ≡ bs)
reads rbsp k b bs e = let (h, t) = next_bit (bits rbsp) k b bs e in (bit_at-bits rbsp k ∙ h, t)

count_zeros-replicate :
    (n rounds : ℕ) (rbsp : List ℕ) (k seen : ℕ) (rest : List Bool)
    → n < rounds
    → drop k (bits rbsp) ≡ replicate n false ++ true ∷ rest
    → (count_zeros rounds rbsp k seen ≡ some (k + suc n, seen + n))
      × (drop (k + suc n) (bits rbsp) ≡ rest)
unfolding count_zeros
count_zeros-replicate n zero rbsp k seen rest h e = absurd (omega arith)
count_zeros-replicate zero (suc rounds) rbsp k seen rest h e =
    let (b, t) = reads rbsp k true rest e in
    let one_on : suc k ≡ k + 1 = omega arith in
    let none_on : seen ≡ seen + 0 = omega arith in
    (
      ap (on_bit (count_zeros rounds rbsp) k seen) b
          ∙ ap (λ i. some (i, seen)) one_on
          ∙ ap (λ i. some (k + 1, i)) none_on,
      ap (λ i. drop i (bits rbsp)) (sym one_on) ∙ t,
    )
count_zeros-replicate (suc n) (suc rounds) rbsp k seen rest h e =
    let (b, t) = reads rbsp k false (replicate n false ++ true ∷ rest) e in
    let (c, d) = count_zeros-replicate n rounds rbsp (suc k) (suc seen) rest (omega arith) t in
    let i : suc k + suc n ≡ k + suc (suc n) = omega arith in
    let j : suc seen + n ≡ seen + suc n = omega arith in
    (
      ap (on_bit (count_zeros rounds rbsp) k seen) b
          ∙ c
          ∙ ap (λ x. some (x, suc seen + n)) i
          ∙ ap (λ x. some (k + suc (suc n), x)) j,
      ap (λ x. drop x (bits rbsp)) (sym i) ∙ d,
    )

weigh : (acc d p q v : ℕ) → q ≡ p + p → (acc * 2 + d) * p + v ≡ acc * q + (d * p + v)
weigh acc d p q v e = grind arith

read_suffix-value :
    (bs : List Bool) (rbsp : List ℕ) (k acc m : ℕ) (rest : List Bool)
    → acc < 2 ^ m
    → m + length bs ≤ 32
    → drop k (bits rbsp) ≡ bs ++ rest
    → read_suffix (length bs) rbsp k acc ≡ some (acc * 2 ^ length bs + value bs)
unfolding read_suffix
read_suffix-value [] rbsp k acc m rest small fits e =
    let same : acc ≡ acc * 2 ^ 0 + 0 = omega arith in ap some same
read_suffix-value (b ∷ bs) rbsp k acc m rest small fits e =
    let (h, t) = reads rbsp k b (bs ++ rest) e in
    ap (with_bit (read_suffix (length bs) rbsp (suc k)) acc) h
    ∙ ap (read_suffix (length bs) rbsp (suc k)) (no_wrap b)
    ∙ read_suffix-value bs rbsp (suc k) (acc * 2 + digit b) (suc m) rest (grows b) (omega arith) t
    ∙ ap some (weighs b)
  where
    digit : Bool → ℕ
    digit b = if b then 1 else 0

    double : 2 ^ suc m ≡ 2 ^ m + 2 ^ m
    double = two-pow-succ m

    grows : (b : Bool) → acc * 2 + digit b < 2 ^ suc m
    grows true = omega (arith, double, small)
    grows false = omega (arith, double, small)

    bounded : 2 ^ suc m ≤ 2 ^ 32
    bounded =
        let le : suc m ≤ 32 = omega (arith, fits) in
        let two : 0 < 2 = omega arith in pow-le-pow_right two le

    no_wrap : (b : Bool) → (acc * 2 % 2 ^ 32 + digit b) % 2 ^ 32 ≡ acc * 2 + digit b
    no_wrap true = omega (arith, grows true, bounded)
    no_wrap false = omega (arith, grows false, bounded)

    weighs :
        (b : Bool)
        → (acc * 2 + digit b) * 2 ^ length bs + value bs
          ≡ acc * 2 ^ suc (length bs) + (digit b * 2 ^ length bs + value bs)
    weighs b =
        weigh acc (digit b) (2 ^ length bs) (2 ^ suc (length bs)) (value bs)
          (two-pow-succ (length bs))

value-bound : (bs : List Bool) → value bs < 2 ^ length bs
value-bound [] = omega arith
value-bound (true ∷ bs) = omega (arith, value-bound bs, two-pow-succ (length bs))
value-bound (false ∷ bs) = omega (arith, value-bound bs, two-pow-succ (length bs))

-- A slice whose bits, once the escape bytes are out, start with the code word of a suffix of at most
-- 31 bits is read as the number that the code word stands for: 2^n - 1 plus the value of the n bits
-- of its suffix.
pub read_first_mb_in_slice-code_word :
    (header : ℕ) (body : List ℕ) (suffix rest : List Bool)
    → length suffix ≤ 31
    → bits (unescape 0 body) ≡ code_word suffix ++ rest
    → read_first_mb_in_slice (header ∷ body) ≡ some (2 ^ length suffix - 1 + value suffix)
unfolding read_first_mb_in_slice read_exp_golomb
read_first_mb_in_slice-code_word header body suffix rest short e =
    ap from_zeros zeros_read ∙ ap from_suffix suffix_read ∙ ap some whole
  where
    rbsp : List ℕ
    rbsp = unescape 0 body

    n : ℕ
    n = length suffix

    number : ℕ → ℕ → ℕ
    number seen v = (2 ^ seen - 1 + v) % 2 ^ 32

    from_zeros : Option (ℕ × ℕ) → Option ℕ
    from_zeros o = elim o [
      | none ↦ none
      | some (bit_offset, seen) ↦ elim (read_suffix seen rbsp bit_offset 0) [
        | none ↦ none
        | some v ↦ some (number seen v)
      ]
    ]

    from_suffix : Option ℕ → Option ℕ
    from_suffix o = elim o [ none ↦ none | some v ↦ some (number n v) ]

    counted :
        (count_zeros 32 rbsp 0 0 ≡ some (0 + suc n, 0 + n))
        × (drop (0 + suc n) (bits rbsp) ≡ suffix ++ rest)
    counted =
        count_zeros-replicate n 32 rbsp 0 0 (suffix ++ rest) (omega (arith, short))
          (e ∙ append_assoc (replicate n false) (true ∷ suffix) rest)

    zeros_read : count_zeros 32 rbsp 0 0 ≡ some (0 + suc n, n)
    zeros_read = let z : 0 + n ≡ n = omega arith in counted.0 ∙ ap (λ i. some (0 + suc n, i)) z

    suffix_read : read_suffix n rbsp (0 + suc n) 0 ≡ some (0 * 2 ^ n + value suffix)
    suffix_read =
        read_suffix-value suffix rbsp (0 + suc n) 0 0 rest (omega arith) (omega (arith, short))
          counted.1

    whole : number n (0 * 2 ^ n + value suffix) ≡ 2 ^ n - 1 + value suffix
    whole =
        let two : 0 < 2 = omega arith in
        let bounded : 2 ^ n ≤ 2 ^ 31 = pow-le-pow_right two short in
        omega (arith, value-bound suffix, bounded)
