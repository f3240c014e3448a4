-- ===== src/Protocol/KeyValue/Format.antt =====
-- Texts of the form `k=v;k=v`, as the client's `snprintf` formats and the host's literals write
-- them, read back by `findKeyValue`.
use robo_vr.Base.{ℕ, ◌≡◌, refl, ◌∙◌, ap, Bool, true, false, List, [], ◌∷◌, ◌++◌, some, arith, All}
use robo_vr.Protocol.KeyValue.Defs.{
  before, after, is_equal, is_separator, key_value, find_key_value, find, get_or_empty,
}
use robo_vr.Protocol.KeyValue.Fields.{fields, lookup_field, find_key_value-lookup_field}

abbrev pub Lacks : (ℕ → Bool) → List ℕ → Type 0
Lacks p = All (λ c. p c ≡ false)

abbrev pub Pair : Type 0
Pair = List ℕ × List ℕ

abbrev pub pair : Pair → List ℕ
pair (k, v) = k ++ (b'=' ∷ v)

-- `k=v` joined by `;`.
unfoldable pub format : List Pair → List ℕ
format [] = []
format (p ∷ []) = pair p
format (p ∷ q ∷ ps) = pair p ++ (b';' ∷ format (q ∷ ps))

-- No separator in the text, and no `=` in the key.
pub record IsPlain (p : Pair) : Type 0 where
  pub key_plain : Lacks is_separator p.0
  pub value_plain : Lacks is_separator p.1
  pub key_unequal : Lacks is_equal p.0

before_plain :
    (sep : ℕ → Bool) (s : ℕ) (xs ys : List ℕ)
    → Lacks sep xs
    → sep s ≡ true
    → (before sep (xs ++ (s ∷ ys)) ≡ xs) × (after sep (xs ++ (s ∷ ys)) ≡ some ys)
unfolding before after
before_plain sep s [] ys h e = ground arith
before_plain sep s (x ∷ xs) ys h e = ground (arith, before_plain sep s xs ys h.1 e)

fields_plain :
    (sep : ℕ → Bool) (x : ℕ) (xs : List ℕ)
    → Lacks sep (x ∷ xs)
    → fields sep (x ∷ xs) ≡ (x ∷ xs) ∷ []
unfolding fields
fields_plain sep x [] h = ground (arith, h.0)
fields_plain sep x (y ∷ ys) h = ground (arith, h.0, fields_plain sep y ys h.1)

fields_cons :
    (sep : ℕ → Bool) (s : ℕ) (xs ys : List ℕ)
    → Lacks sep xs
    → sep s ≡ true
    → fields sep (xs ++ (s ∷ ys)) ≡ xs ∷ fields sep ys
unfolding fields
fields_cons sep s [] ys h e = ground arith
fields_cons sep s (x ∷ xs) ys h e = ground (arith, h.0, fields_cons sep s xs ys h.1 e)

Lacks-append : (p : ℕ → Bool) (xs ys : List ℕ) → Lacks p xs → Lacks p ys → Lacks p (xs ++ ys)
Lacks-append p [] ys hx hy = hy
Lacks-append p (x ∷ xs) ys hx hy = (hx.0, Lacks-append p xs ys hx.1 hy)

Lacks-pair : (p : Pair) → IsPlain p → Lacks is_separator (pair p)
Lacks-pair (k, v) h = Lacks-append is_separator k (b'=' ∷ v) h.key_plain (refl, h.value_plain)

fields-pair : (p : Pair) → IsPlain p → fields is_separator (pair p) ≡ pair p ∷ []
fields-pair ([], v) h = fields_plain is_separator b'=' v (Lacks-pair ([], v) h)
fields-pair (c ∷ k, v) h = fields_plain is_separator c (k ++ (b'=' ∷ v)) (Lacks-pair (c ∷ k, v) h)

abbrev pairs : List Pair → List (List ℕ)
pairs [] = []
pairs (p ∷ ps) = pair p ∷ pairs ps

fields-format : (ps : List Pair) → All IsPlain ps → fields is_separator (format ps) ≡ pairs ps
unfolding format
fields-format [] h = unfold fields in refl
fields-format (p ∷ []) h = fields-pair p h.0
fields-format (p ∷ q ∷ ps) h =
    fields_cons is_separator b';' (pair p) (format (q ∷ ps)) (Lacks-pair p h.0) refl
    ∙ ap (◌∷◌ (pair p)) (fields-format (q ∷ ps) h.1)

key_value-pair : (p : Pair) → IsPlain p → key_value (pair p) ≡ some p
unfolding key_value
key_value-pair (k, v) h = ground (arith, before_plain is_equal b'=' k v h.key_unequal refl)

lookup_field-pairs :
    (ps : List Pair) (key : List ℕ)
    → All IsPlain ps
    → lookup_field (pairs ps) key ≡ get_or_empty (find ps key)
unfolding lookup_field find
lookup_field-pairs [] key h = refl
lookup_field-pairs ((k, v) ∷ ps) key h =
    ground (arith, key_value-pair (k, v) h.0, lookup_field-pairs ps key h.1)

-- A text formatted from plain pairs gives back, for any key, the value of its first pair with that
-- key, and the empty text for a key that it does not have.
pub find_key_value-format :
    (ps : List Pair) (key : List ℕ)
    → All IsPlain ps
    → find_key_value (format ps) key ≡ get_or_empty (find ps key)
find_key_value-format ps key h =
    find_key_value-lookup_field (format ps) key
    ∙ ap (λ fs. lookup_field fs key) (fields-format ps h)
    ∙ lookup_field-pairs ps key h
