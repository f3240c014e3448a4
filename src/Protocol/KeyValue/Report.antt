-- ===== src/Protocol/KeyValue/Report.antt =====
-- Texts of pairs with different keys: the host's map gives every value back.
use robo_vr.Base.{
  ℕ, ◌≤◌, ◌≡◌, ◌≢◌, ap, ◌∙◌, if◌then◌else◌, Bool, true, false, not, ◌&&◌, List, [], ◌∷◌, ◌++◌,
  Option, none, some, length, All, bytes_eq, bytes_eq_refl, arith,
}
use robo_vr.Protocol.KeyValue.Defs.{
  Values, is_equal, is_separator, find, get_value, get_or_empty, parse_key_value_payload,
}
use robo_vr.Protocol.KeyValue.Agree.{HasNoNewline, get_value-find_key_value}
use robo_vr.Protocol.KeyValue.Format.{Lacks, Pair, pair, format, IsPlain, find_key_value-format}

-- A printed number: not empty, and free of separators.
abbrev pub IsNumeral : List ℕ → Type 0
IsNumeral text = (1 ≤ length text) × Lacks is_separator text

abbrev pub lacks : (ℕ → Bool) → List ℕ → Bool
lacks p [] = true
lacks p (c ∷ cs) = not (p c) && lacks p cs

pub lacks→Lacks : (p : ℕ → Bool) (cs : List ℕ) → lacks p cs ≡ true → Lacks p cs
lacks→Lacks p [] e = tt
lacks→Lacks p (c ∷ cs) e = (ground (arith, e), lacks→Lacks p cs (ground (arith, e)))

abbrev pub is_key : List ℕ → Bool
is_key k = lacks is_separator k && lacks is_equal k

abbrev pub IsEntry : Pair → Type 0
IsEntry p = (is_key p.0 ≡ true) × IsNumeral p.1

abbrev pub HasNumeral : Pair → Type 0
HasNumeral p = IsNumeral p.1

abbrev pub have_keys : List Pair → Bool
have_keys [] = true
have_keys ((k, v) ∷ ps) = is_key k && have_keys ps

pub HasNumeral-IsEntry : (ps : List Pair) → have_keys ps ≡ true → All HasNumeral ps → All IsEntry ps
HasNumeral-IsEntry [] e h = tt
HasNumeral-IsEntry ((k, v) ∷ ps) e (n, h) =
    ((ground (arith, e), n), HasNumeral-IsEntry ps (ground (arith, e)) h)

IsEntry-IsPlain : (p : Pair) → IsEntry p → IsPlain p
IsEntry-IsPlain (k, v) (e, (some_byte, plain)) = record {
  key_plain = lacks→Lacks is_separator k (ground (arith, e));
  value_plain = plain;
  key_unequal = lacks→Lacks is_equal k (ground (arith, e));
}

All-IsPlain : (ps : List Pair) → All IsEntry ps → All IsPlain ps
All-IsPlain [] h = tt
All-IsPlain (p ∷ ps) (e, h) = (IsEntry-IsPlain p e, All-IsPlain ps h)

abbrev is_absent : List ℕ → List Pair → Bool
is_absent key [] = true
is_absent key ((k, v) ∷ ps) = not (bytes_eq key k) && is_absent key ps

-- No two pairs have the same key.
abbrev pub is_distinct : List Pair → Bool
is_distinct [] = true
is_distinct ((k, v) ∷ ps) = is_absent k ps && is_distinct ps

HasNoNewline-append : (xs ys : List ℕ) → HasNoNewline xs → HasNoNewline ys → HasNoNewline (xs ++ ys)
HasNoNewline-append [] ys h k = k
HasNoNewline-append (x ∷ xs) ys (e, h) k = (e, HasNoNewline-append xs ys h k)

Lacks-HasNoNewline : (xs : List ℕ) → Lacks is_separator xs → HasNoNewline xs
Lacks-HasNoNewline [] h = tt
Lacks-HasNoNewline (x ∷ xs) (e, h) = (ground (arith, e), Lacks-HasNoNewline xs h)

HasNoNewline-pair : (p : Pair) → IsPlain p → HasNoNewline (pair p)
HasNoNewline-pair (k, v) h =
    let differs : b'=' ≢ 10 = omega arith in
    HasNoNewline-append k (b'=' ∷ v) (Lacks-HasNoNewline k h.key_plain)
      (differs, Lacks-HasNoNewline v h.value_plain)

HasNoNewline-format : (ps : List Pair) → All IsPlain ps → HasNoNewline (format ps)
unfolding format
HasNoNewline-format [] h = tt
HasNoNewline-format (p ∷ []) (e, h) = HasNoNewline-pair p e
HasNoNewline-format (p ∷ q ∷ ps) (e, h) =
    let differs : b';' ≢ 10 = omega arith in
    HasNoNewline-append (pair p) (b';' ∷ format (q ∷ ps)) (HasNoNewline-pair p e)
      (differs, HasNoNewline-format (q ∷ ps) h)

find-first : (k v : List ℕ) (ps : List Pair) → find ((k, v) ∷ ps) k ≡ some v
unfolding find
find-first k v ps = ap (λ b. if b then some v else find ps k) (bytes_eq_refl k)

find-later :
    (k v : List ℕ) (ps : List Pair) (key : List ℕ)
    → bytes_eq k key ≡ false
    → find ((k, v) ∷ ps) key ≡ find ps key
unfolding find
find-later k v ps key e = ap (λ b. if b then some v else find ps key) e

-- Each of `ps` is what the search in `all` finds under its key.
abbrev Found : List Pair → List Pair → Type 0
Found all ps = All (λ p. find all p.0 ≡ some p.1) ps

Found-later :
    (k v : List ℕ) (all ps : List Pair)
    → is_absent k ps ≡ true
    → Found all ps
    → Found ((k, v) ∷ all) ps
Found-later k v all [] e h = tt
Found-later k v all ((l, w) ∷ ps) e (f, h) =
    (find-later k v all l (ground (arith, e)) ∙ f, Found-later k v all ps (ground (arith, e)) h)

find-is_distinct : (ps : List Pair) → is_distinct ps ≡ true → Found ps ps
find-is_distinct [] e = tt
find-is_distinct ((k, v) ∷ ps) e = (
  find-first k v ps,
  Found-later k v ps ps (ground (arith, e)) (find-is_distinct ps (ground (arith, e))),
)

get_value-any :
    (m : Values) (key v : List ℕ) → 1 ≤ length v → get_value m key [] ≡ v → find m key ≡ some v
unfolding get_value
get_value-any m key v h e = by_find (find m key) e
  where
    by_find : (o : Option (List ℕ)) → elim o [ none ↦ [] | some w ↦ w ] ≡ v → o ≡ some v
    by_find none e = let n : 0 ≡ length v = ap length e in absurd (omega (arith, n, h))
    by_find (some w) e = ap some e

-- What the search in the pairs finds, the host's map of their text has.
pub find-parse_key_value_payload :
    (ps : List Pair) (key v : List ℕ)
    → All IsEntry ps
    → find ps key ≡ some v
    → 1 ≤ length v
    → find (parse_key_value_payload (format ps)) key ≡ some v
find-parse_key_value_payload ps key v h f some_byte =
    let plain = All-IsPlain ps h in
    get_value-any (parse_key_value_payload (format ps)) key v some_byte (
      get_value-find_key_value (format ps) key (HasNoNewline-format ps plain)
      ∙ find_key_value-format ps key plain
      ∙ ap get_or_empty f)

-- The host's map of a text formatted from pairs whose keys differ and whose values are printed
-- numbers has, for each pair, its value under its key.
pub find-parse_key_value_payload-format :
    (ps : List Pair)
    → All IsEntry ps
    → is_distinct ps ≡ true
    → All (λ p. find (parse_key_value_payload (format ps)) p.0 ≡ some p.1) ps
find-parse_key_value_payload-format ps h e = read ps h (find-is_distinct ps e)
  where
    read :
        (qs : List Pair)
        → All IsEntry qs
        → Found ps qs
        → All (λ p. find (parse_key_value_payload (format ps)) p.0 ≡ some p.1) qs
    read [] entries found = tt
    read ((k, v) ∷ qs) ((key, (some_byte, _)), entries) (f, found) =
        (find-parse_key_value_payload ps k v h f some_byte, read qs entries found)
