-- ===== src/Host/AccessUnits/Load.antt =====
-- `loadH264TestStream` ends, and what it loads is a stream that `makeH264TestPayload` can send.
use robo_vr.Base.{
  ℕ, zero, suc, ◌+◌, ◌-◌, ◌%◌, ◌≤◌, ◌<◌, ◌≡◌, ◌⊎◌, inl, inr, refl, sym, ◌==◌, ltb, if◌then◌else◌,
  Bool, true, false, not, ◌&&◌, ◌||◌, List, [], ◌∷◌, Option, none, some, length, length-append,
  length-take, length-drop, drop, get_elem?, All, All-snoc, arith, Bool-cases,
}
use mathlib.Core.Path.{subst}
use robo_vr.Host.Payloads.{H264TestStream}
use robo_vr.Host.AccessUnits.Slice.{read_first_mb_in_slice}
use robo_vr.Host.AccessUnits.Split.{
  start_code_size, find_start_code, Units, no_units, push_current, is_empty, value_or_zero,
  begin_nal, append_nal, slice, take_nal, end_of, split, units_or_file, finish,
  load_h264_test_stream,
}
use robo_vr.Host.AccessUnits.Codes.{IsFirst, find_start_code-IsFirst}

-- A start code, and where its NAL unit ends.
abbrev pub IsNal : List ℕ → ℕ → ℕ → Option ℕ → Type 0
IsNal bytes start header next =
    (header ≡ start + start_code_size bytes start)
    × (3 ≤ start_code_size bytes start)
    × (header ≤ length bytes)
    × IsFirst bytes header next

end_of-le :
    (bytes : List ℕ) (i : ℕ) (o : Option ℕ)
    → i ≤ length bytes
    → IsFirst bytes i o
    → (i ≤ end_of bytes o) × (end_of bytes o ≤ length bytes)
end_of-le bytes i none le h = (le, omega arith)
end_of-le bytes i (some j) le (ij, size, fits, before) = (ij, omega arith)

pub nal_end-le :
    (bytes : List ℕ) (start header : ℕ) (next : Option ℕ)
    → IsNal bytes start header next
    → (header ≤ end_of bytes next) × (end_of bytes next ≤ length bytes)
nal_end-le bytes start header next (e, size, le, h) = end_of-le bytes header next le h

-- The rounds suffice, and what each round keeps holds at the end of the file.
pub split_lem :
    (bytes : List ℕ) (Inv : ℕ → Units → Type 0)
    → ((start header : ℕ) (next : Option ℕ) (u : Units)
        → IsNal bytes start header next
        → Inv start u
        → Inv (end_of bytes next) (take_nal bytes start header (end_of bytes next) u))
    → (fuel i : ℕ) (o : Option ℕ) (u : Units) → IsFirst bytes i o
    → length bytes < i + fuel
    → Inv (end_of bytes o) u
    → (v : Units) × (split fuel bytes o u ≡ some v) × Inv (length bytes) v
unfolding split
split_lem bytes Inv step zero i none u h f k = (u, refl, k)
split_lem bytes Inv step (suc fuel) i none u h f k = (u, refl, k)
split_lem bytes Inv step zero i (some s) u (le, size, fits, before) f k = absurd (omega arith)
split_lem bytes Inv step (suc fuel) i (some s) u (le, size, fits, before) f k =
    let header = s + start_code_size bytes s in
    let next = find_start_code bytes header in
    let first = find_start_code-IsFirst bytes header in
    split_lem bytes Inv step fuel header next (take_nal bytes s header (end_of bytes next) u) first
      (omega arith) (step s header next u (refl, size, fits, first) k)

abbrev pub IsFilled : List ℕ → Type 0
IsFilled unit = 1 ≤ length unit

abbrev IsCounted : Units → Type 0
IsCounted u = (length u.access_units ≡ length u.keyframes) × All IsFilled u.access_units

-- A unit that has a slice is not empty.
abbrev pub IsSplit : Units → Type 0
IsSplit u = IsCounted u × (u.current_has_vcl ≡ true → IsFilled u.current_access_unit)

push_current-IsCounted :
    (u : Units) → IsCounted u → IsFilled u.current_access_unit → IsCounted (push_current u)
unfolding push_current
push_current-IsCounted u (e, h) p = (
  omega (
    arith,
    length-append u.access_units (u.current_access_unit ∷ []),
    length-append u.keyframes (u.current_is_keyframe ∷ []),
  ),
  All-snoc IsFilled u.access_units u.current_access_unit h p,
)

begin_nal-IsCounted :
    (t : ℕ) (body : List ℕ) (u : Units) → IsSplit u → IsCounted (begin_nal t body u)
unfolding begin_nal
begin_nal-IsCounted t body u (c, h) = by_tests _ _ refl _ _ refl
  where
    not_empty : (unit : List ℕ) → not (is_empty unit) ≡ true → IsFilled unit
    not_empty [] e = cc
    not_empty (b ∷ unit) e = omega arith

    by_tests :
        (a b : Bool)
        → (u.current_has_vcl && value_or_zero (read_first_mb_in_slice body) == 0) ≡ b
        → (k d : Bool) → (t == 9 && not (is_empty u.current_access_unit)) ≡ d
        → IsCounted (
            if a
            then (let v = if b then push_current u else u in
                record v {
                  current_has_vcl = true;
                  current_is_keyframe = v.current_is_keyframe || k;
                })
            else if d
            then push_current u
            else u)
    by_tests true true e k d g = push_current-IsCounted u c (h (ground (arith, e)))
    by_tests true false e k d g = c
    by_tests false b e k true g =
        push_current-IsCounted u c (not_empty u.current_access_unit (ground (arith, g)))
    by_tests false b e k false g = c

append_nal-IsSplit :
    (nal : List ℕ) (u : Units) → IsFilled nal → IsCounted u → IsSplit (append_nal nal u)
append_nal-IsSplit nal u p c = (c, λ _. omega (arith, p, length-append u.current_access_unit nal))

pub length-slice :
    (bytes : List ℕ) (start stop : ℕ)
    → start ≤ stop
    → stop ≤ length bytes
    → length (slice bytes start stop) ≡ stop - start
length-slice bytes start stop h k =
    omega (arith, length-take (stop - start) (drop start bytes), length-drop start bytes)

take_nal-IsSplit :
    (bytes : List ℕ) (start header : ℕ) (next : Option ℕ) (u : Units)
    → IsNal bytes start header next
    → IsSplit u
    → IsSplit (take_nal bytes start header (end_of bytes next) u)
unfolding take_nal
take_nal-IsSplit bytes start header next u n h = by_test (Bool-cases (ltb header stop))
  where
    stop : ℕ
    stop = end_of bytes next

    body : List ℕ
    body = slice bytes header stop

    t : ℕ
    t = value_or_zero (get_elem? bytes header) % 32

    more : Units
    more = append_nal (slice bytes start stop) (begin_nal t body u)

    by_test :
        ((ltb header stop ≡ true) ⊎ (ltb header stop ≡ false))
        → IsSplit (if ltb header stop then more else u)
    by_test (inl e) =
        let (lo, hi) = nal_end-le bytes start header next n in
        let nonempty : header < stop = ground (arith, e) in
        let le : start ≤ stop = omega (arith, n) in
        let filled : IsFilled (slice bytes start stop) =
          omega (arith, length-slice bytes start stop le hi, n) in
        subst (λ b. IsSplit (if b then more else u)) (sym e)
          (append_nal-IsSplit (slice bytes start stop) (begin_nal t body u) filled
            (begin_nal-IsCounted t body u h))
    by_test (inr e) = subst (λ b. IsSplit (if b then more else u)) (sym e) h

no_units-IsSplit : IsSplit no_units
no_units-IsSplit = ((refl, tt), λ e. cc)

-- The vectors have the same length, and neither they nor an access unit is empty.
abbrev pub IsSendable : H264TestStream → Type 0
IsSendable stream =
    (1 ≤ length stream.access_units)
    × (length stream.keyframes ≡ length stream.access_units)
    × All IsFilled stream.access_units

units_or_file-IsSendable :
    (bytes : List ℕ) (width height : ℕ) (units : List (List ℕ)) (keyframes : List Bool)
    → IsFilled bytes
    → length units ≡ length keyframes
    → All IsFilled units
    → IsSendable (units_or_file bytes width height units keyframes)
unfolding units_or_file
units_or_file-IsSendable bytes width height [] keyframes filled e h =
    (omega arith, refl, (filled, tt))
units_or_file-IsSendable bytes width height (x ∷ units) keyframes filled e h =
    (omega arith, sym e, h)

finish-IsSendable :
    (bytes : List ℕ) (width height : ℕ) (u : Units)
    → IsFilled bytes
    → IsSplit u
    → IsSendable (finish bytes width height u)
unfolding finish
finish-IsSendable bytes width height u filled (c, h) = by_rest u.current_access_unit refl
  where
    ready :
        (v : Units)
        → IsCounted v
        → IsSendable (units_or_file bytes width height v.access_units v.keyframes)
    ready v (e, all) =
        units_or_file-IsSendable bytes width height v.access_units v.keyframes filled e all

    by_rest :
        (rest : List ℕ)
        → u.current_access_unit ≡ rest
        → let v = if is_empty rest then u else push_current u in
          IsSendable (units_or_file bytes width height v.access_units v.keyframes)
    by_rest [] e = ready u c
    by_rest (b ∷ rest) e =
        ready (push_current u) (push_current-IsCounted u c (subst IsFilled (sym e) (omega arith)))

-- The rounds suffice for each file.
pub load-split :
    (b : ℕ) (bytes : List ℕ) (width height : ℕ) (Inv : ℕ → Units → Type 0)
    → ((start header : ℕ) (next : Option ℕ) (u : Units)
        → IsNal (b ∷ bytes) start header next
        → Inv start u
        → Inv
            (end_of (b ∷ bytes) next)
            (take_nal (b ∷ bytes) start header (end_of (b ∷ bytes) next) u))
    → Inv (end_of (b ∷ bytes) (find_start_code (b ∷ bytes) 0)) no_units
    → (v : Units) × (load_h264_test_stream (some (b ∷ bytes)) width height
        ≡ some (finish (b ∷ bytes) width height v))
      × Inv (length (b ∷ bytes)) v
unfolding load_h264_test_stream
load-split b bytes width height Inv step start =
    let file = b ∷ bytes in
    let (v, e, k) =
      split_lem file Inv step (suc (length file)) 0 (find_start_code file 0) no_units
        (find_start_code-IsFirst file 0) (omega arith) start in
    (v, cc, k)

-- A file that is not empty is loaded: the loop over its NAL units ends, and the stream has a unit,
-- no empty unit, and a keyframe flag for each.
pub load_h264_test_stream-IsSendable :
    (b : ℕ) (bytes : List ℕ) (width height : ℕ)
    → (stream : H264TestStream) × (load_h264_test_stream (some (b ∷ bytes)) width height
        ≡ some stream)
      × IsSendable stream
load_h264_test_stream-IsSendable b bytes width height =
    let file = b ∷ bytes in
    let (v, e, k) =
      load-split b bytes width height (λ _. IsSplit) (take_nal-IsSplit file) no_units-IsSplit in
    (finish file width height v, e, finish-IsSendable file width height v (omega arith) k)
