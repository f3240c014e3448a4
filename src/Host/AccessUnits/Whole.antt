-- ===== src/Host/AccessUnits/Whole.antt =====
-- The access units of `loadH264TestStream` and the bytes of the file.
use robo_vr.Base.{
  ℕ, suc, ◌+◌, ◌-◌, ◌%◌, ◌≤◌, ◌<◌, ◌≡◌, ◌≢◌, ◌⊎◌, inl, inr, refl, ap, ◌∙◌, sym, ltb, if◌then◌else◌,
  Bool, true, false, ◌||◌, List, [], ◌∷◌, ◌++◌, append_assoc, append-nil, Option, none, some,
  length, length-drop, drop-drop, take_add, take, drop, take_all, get_elem?, arith,
}
use mathlib.Core.Path.{subst}
use robo_vr.Host.Payloads.{H264TestStream}
use robo_vr.Host.AccessUnits.Split.{
  start_code_size, find_start_code, Units, no_units, push_current, is_empty, value_or_zero,
  begin_nal, append_nal, slice, take_nal, end_of, split, finish, units_or_file,
  load_h264_test_stream,
}
use robo_vr.Host.AccessUnits.Codes.{IsFirst, find_start_code-IsFirst}
use robo_vr.Host.AccessUnits.Load.{IsNal, nal_end-le, load-split}

abbrev pub concat : List (List ℕ) → List ℕ
concat [] = []
concat (x ∷ xs) = x ++ concat xs

concat-snoc : (xs : List (List ℕ)) (x : List ℕ) → concat (xs ++ x ∷ []) ≡ concat xs ++ x
concat-snoc [] x = append-nil x
concat-snoc (y ∷ xs) x = ap (λ zs. y ++ zs) (concat-snoc xs x) ∙ sym (append_assoc y (concat xs) x)

-- What the vector and the open unit hold together.
abbrev gathered : Units → List ℕ
gathered u = concat u.access_units ++ u.current_access_unit

gathered-push_current : (u : Units) → gathered (push_current u) ≡ gathered u
unfolding push_current
gathered-push_current u =
    append-nil (concat (u.access_units ++ u.current_access_unit ∷ []))
    ∙ concat-snoc u.access_units u.current_access_unit

gathered-begin_nal :
    (t : ℕ) (body : List ℕ) (u : Units) → gathered (begin_nal t body u) ≡ gathered u
unfolding begin_nal
gathered-begin_nal t body u = by_tests _ _ _ _
  where
    by_tests :
        (a b k d : Bool)
        → gathered (
            if a
            then (let v = if b then push_current u else u in
                record v {
                  current_has_vcl = true;
                  current_is_keyframe = v.current_is_keyframe || k;
                })
            else if d
            then push_current u
            else u)
          ≡ gathered u
    by_tests true true k d = gathered-push_current u
    by_tests true false k d = refl
    by_tests false b k true = gathered-push_current u
    by_tests false b k false = refl

gathered-append_nal : (nal : List ℕ) (u : Units) → gathered (append_nal nal u) ≡ gathered u ++ nal
gathered-append_nal nal u = sym (append_assoc (concat u.access_units) u.current_access_unit nal)

-- Each start code of the file is followed by a byte that starts no other.
abbrev pub IsSpaced : List ℕ → Type 0
IsSpaced bytes =
    (i : ℕ)
    → 3 ≤ start_code_size bytes i
    → (i + start_code_size bytes i < length bytes)
      × (start_code_size bytes (i + start_code_size bytes i) ≡ 0)

slice_join : (xs : List ℕ) (i j k : ℕ) → i ≤ j → j ≤ k → slice xs i j ++ slice xs j k ≡ slice xs i k
slice_join xs i j k ij jk =
    ap (λ zs. slice xs i j ++ take (k - j) zs)
      (ap (λ n. drop n xs) (omega (arith, ij)) ∙ sym (drop-drop i (j - i) xs))
    ∙ sym (take_add (j - i) (k - j) (drop i xs))
    ∙ ap (λ n. take n (drop i xs)) (omega (arith, ij, jk))

slice_none : (xs : List ℕ) (i : ℕ) → slice xs i i ≡ []
slice_none xs i = let e : i - i ≡ 0 = omega arith in ap (λ n. take n (drop i xs)) e

slice_rest : (xs : List ℕ) (i : ℕ) → slice xs i (length xs) ≡ drop i xs
slice_rest xs i = take_all (length xs - i) (drop i xs) (omega (arith, length-drop i xs))

gathered-take_nal :
    (bytes : List ℕ) (start header : ℕ) (next : Option ℕ) (u : Units)
    → IsSpaced bytes
    → IsNal bytes start header next
    → gathered (take_nal bytes start header (end_of bytes next) u)
      ≡ gathered u ++ slice bytes start (end_of bytes next)
unfolding take_nal
gathered-take_nal bytes start header next u spaced (e, size, le, first) =
    ap (λ b. gathered (if b then more else u)) (nonempty next first)
    ∙ gathered-append_nal nal (begin_nal t body u)
    ∙ ap (λ x. x ++ nal) (gathered-begin_nal t body u)
  where
    stop : ℕ
    stop = end_of bytes next

    nal : List ℕ
    nal = slice bytes start stop

    body : List ℕ
    body = slice bytes header stop

    t : ℕ
    t = value_or_zero (get_elem? bytes header) % 32

    more : Units
    more = append_nal nal (begin_nal t body u)

    nonempty : (o : Option ℕ) → IsFirst bytes header o → ltb header (end_of bytes o) ≡ true
    nonempty none h =
        let a = (spaced start size).0 in
        let lt : header < length bytes = omega (arith, a, e) in ground (arith, lt)
    nonempty (some j) (hj, code, fits, before) =
        let none_here : start_code_size bytes header ≡ 0 =
          ap (start_code_size bytes) e ∙ (spaced start size).1 in
        let differ : header ≢ j =
          λ same. absurd (omega (arith, code, sym (ap (start_code_size bytes) same) ∙ none_here)) in
        let lt : header < j = omega (arith, hj, differ) in ground (arith, lt)

abbrev Gathered : List ℕ → ℕ → ℕ → Units → Type 0
Gathered bytes first position u = (first ≤ position) × (gathered u ≡ slice bytes first position)

take_nal-Gathered :
    (bytes : List ℕ) (first start header : ℕ) (next : Option ℕ) (u : Units)
    → IsSpaced bytes
    → IsNal bytes start header next
    → Gathered bytes first start u
    → Gathered bytes first (end_of bytes next) (take_nal bytes start header (end_of bytes next) u)
take_nal-Gathered bytes first start header next u spaced n (le, g) =
    let (lo, hi) = nal_end-le bytes start header next n in
    let later : start ≤ end_of bytes next = omega (arith, lo, n) in
    (
      omega arith,
      gathered-take_nal bytes start header next u spaced n
          ∙ ap (λ x. x ++ slice bytes start (end_of bytes next)) g
          ∙ slice_join bytes first start (end_of bytes next) le later,
    )

concat-units_or_file :
    (bytes : List ℕ) (width height : ℕ) (units : List (List ℕ)) (keyframes : List Bool)
    → let whole = concat (units_or_file bytes width height units keyframes).access_units in
      (whole ≡ concat units) ⊎ (concat units ≡ [])
unfolding units_or_file
concat-units_or_file bytes width height [] keyframes = inr refl
concat-units_or_file bytes width height (x ∷ units) keyframes = inl refl

concat-finish :
    (bytes : List ℕ) (width height : ℕ) (u : Units)
    → (concat (finish bytes width height u).access_units ≡ gathered u) ⊎ (gathered u ≡ [])
unfolding finish push_current
concat-finish bytes width height u = by_rest u.current_access_unit refl
  where
    Result : Units → Type 0
    Result v =
        let whole = units_or_file bytes width height v.access_units v.keyframes in
        (concat whole.access_units ≡ gathered u) ⊎ (gathered u ≡ [])

    from : (v : Units) → gathered u ≡ concat v.access_units → Result v
    from v g = elim (concat-units_or_file bytes width height v.access_units v.keyframes) [
      | inl h ↦ inl (h ∙ sym g)
      | inr h ↦ inr (g ∙ h)
    ]

    by_rest :
        (rest : List ℕ)
        → u.current_access_unit ≡ rest
        → Result (if is_empty rest then u else push_current u)
    by_rest [] e =
        from u (ap (λ x. concat u.access_units ++ x) e ∙ append-nil (concat u.access_units))
    by_rest (b ∷ rest) e =
        from (push_current u)
          (sym (gathered-push_current u) ∙ append-nil (concat (push_current u).access_units))

-- In a file whose start codes are each followed by a byte of a NAL unit, the access units loaded
-- are, one behind the other, the file from its first start code on, or the whole file when it has no
-- start code.
pub concat-load_h264_test_stream :
    (b : ℕ) (bytes : List ℕ) (width height : ℕ) (stream : H264TestStream)
    → IsSpaced (b ∷ bytes)
    → load_h264_test_stream (some (b ∷ bytes)) width height ≡ some stream
    → concat stream.access_units ≡ drop (value_or_zero (find_start_code (b ∷ bytes) 0)) (b ∷ bytes)
unfolding load_h264_test_stream split finish units_or_file
concat-load_h264_test_stream b bytes width height stream spaced loaded =
    by_find (find_start_code file 0) refl (find_start_code-IsFirst file 0)
  where
    file : List ℕ
    file = b ∷ bytes

    units_of : Option H264TestStream → List ℕ
    units_of none = []
    units_of (some s) = concat s.access_units

    inside :
        (s : ℕ)
        → 3 ≤ start_code_size file s
        → s + start_code_size file s ≤ length file
        → length (drop s file) ≢ 0
    inside s size fits n = omega (arith, n, length-drop s file, size, fits)

    by_find :
        (o : Option ℕ)
        → find_start_code file 0 ≡ o
        → IsFirst file 0 o
        → concat stream.access_units ≡ drop (value_or_zero o) file
    by_find none e first =
        sym (ap units_of loaded)
        ∙ ap
            (λ x. units_of (elim (split (suc (length file)) file x no_units) [
              | none ↦ none
              | some u ↦ some (finish file width height u)
            ]))
            e
        ∙ append-nil file
    by_find (some s) e (le, size, fits, before) =
        let (v, made, (_, g)) =
          load-split b bytes width height (Gathered file s)
            (λ start header next u. take_nal-Gathered file s start header next u spaced)
            (subst (λ x. Gathered file s (end_of file x) no_units) (sym e)
              (omega arith, sym (slice_none file s))) in
        let from_s : gathered v ≡ drop s file = g ∙ slice_rest file s in
        elim (concat-finish file width height v) [
          | inl h ↦ sym (ap units_of loaded) ∙ ap units_of made ∙ h ∙ from_s
          | inr h ↦ absurd (inside s size fits (ap length (sym from_s ∙ h)))
        ]
