-- ===== src/Protocol/KeyValue/Fields.antt =====
-- The fields of a text, and the loops of the two parsers as walks over them.
use robo_vr.Base.{
  ℕ, zero, suc, ◌<◌, ◌≡◌, refl, Bool, List, [], ◌∷◌, Option, none, some, if◌then◌else◌, bytes_eq,
  length, arith, inl, inr, Option-cases, ap,
}
use robo_vr.Protocol.KeyValue.Defs.{
  before, after, key_value, is_separator, is_semicolon, find_loop, find_key_value, Values,
  emplace_field, parse_loop, parse_key_value_payload, get_or_empty, get_or_none_found,
}

-- Put a byte in front of the first field.
abbrev pub grow : ℕ → List (List ℕ) → List (List ℕ)
grow c [] = (c ∷ []) ∷ []
grow c (f ∷ fs) = (c ∷ f) ∷ fs

-- The fields between separators; an empty field at the end of the text is none.
unfoldable pub fields : (ℕ → Bool) → List ℕ → List (List ℕ)
fields sep [] = []
fields sep (c ∷ cs) = if sep c then [] ∷ fields sep cs else grow c (fields sep cs)

-- The value of the first field with that key, or the empty text.
unfoldable pub lookup_field : List (List ℕ) → List ℕ → List ℕ
lookup_field [] key = []
lookup_field (f ∷ fs) key = elim (key_value f) [
  | none ↦ lookup_field fs key
  | some (k, v) ↦ if bytes_eq k key then v else lookup_field fs key
]

unfoldable pub emplace_fields : Values → List (List ℕ) → Values
emplace_fields m [] = m
emplace_fields m (f ∷ fs) = emplace_fields (emplace_field m f) fs

abbrev rest_fields : (ℕ → Bool) → Option (List ℕ) → List (List ℕ)
rest_fields sep none = []
rest_fields sep (some rest) = fields sep rest

pub fields-before-after :
    (sep : ℕ → Bool) (c : ℕ) (cs : List ℕ)
    → fields sep (c ∷ cs) ≡ before sep (c ∷ cs) ∷ rest_fields sep (after sep (c ∷ cs))
unfolding fields before after
fields-before-after sep c [] = ground arith
fields-before-after sep c (d ∷ ds) = ground (arith, fields-before-after sep d ds)

pub after_shorter :
    (sep : ℕ → Bool) (cs rest : List ℕ) → after sep cs ≡ some rest → length rest < length cs
unfolding after
after_shorter sep [] rest e = cc
after_shorter sep (c ∷ cs) rest e = ground (arith, after_shorter sep cs rest)

find_loop-lookup_field :
    (fuel : ℕ) (rest key : List ℕ)
    → length rest < fuel
    → find_loop fuel rest key ≡ some (lookup_field (fields is_separator rest) key)
unfolding find_loop lookup_field
find_loop-lookup_field zero rest key h = absurd (omega arith)
find_loop-lookup_field (suc fuel) [] key h = unfold fields in refl
find_loop-lookup_field (suc fuel) (c ∷ cs) key h =
    rw (fields-before-after is_separator c cs) (elim (Option-cases (after is_separator (c ∷ cs))) [
      | inl e ↦ rw e (ground arith)
      | inr (rest, e) ↦ ground (
        arith,
        e,
        find_loop-lookup_field fuel rest key
            (omega (arith, after_shorter is_separator (c ∷ cs) rest e)),
      )
    ])

-- `findKeyValue` is the lookup among the fields between `;` or newline; its loop never runs out of
-- fuel.
pub find_key_value-lookup_field :
    (payload key : List ℕ)
    → find_key_value payload key ≡ lookup_field (fields is_separator payload) key
unfolding find_key_value
find_key_value-lookup_field payload key =
    ap get_or_empty (find_loop-lookup_field (suc (length payload)) payload key (omega arith))

parse_loop-emplace_fields :
    (fuel : ℕ) (rest : List ℕ) (m : Values)
    → length rest < fuel
    → parse_loop fuel rest m ≡ some (emplace_fields m (fields is_semicolon rest))
unfolding parse_loop emplace_fields
parse_loop-emplace_fields zero rest m h = absurd (omega arith)
parse_loop-emplace_fields (suc fuel) [] m h = unfold fields in refl
parse_loop-emplace_fields (suc fuel) (c ∷ cs) m h =
    let m' = emplace_field m (before is_semicolon (c ∷ cs)) in
    rw (fields-before-after is_semicolon c cs) (elim (Option-cases (after is_semicolon (c ∷ cs))) [
      | inl e ↦ rw e (ground arith)
      | inr (rest, e) ↦ ground (
        arith,
        e,
        parse_loop-emplace_fields fuel rest m'
            (omega (arith, after_shorter is_semicolon (c ∷ cs) rest e)),
      )
    ])

pub parse_key_value_payload-emplace_fields :
    (payload : List ℕ)
    → parse_key_value_payload payload ≡ emplace_fields [] (fields is_semicolon payload)
unfolding parse_key_value_payload
parse_key_value_payload-emplace_fields payload =
    ap get_or_none_found (parse_loop-emplace_fields (suc (length payload)) payload [] (omega arith))
