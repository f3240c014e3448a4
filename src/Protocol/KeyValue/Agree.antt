-- ===== src/Protocol/KeyValue/Agree.antt =====
-- The host's parser and the client's lookup give one answer.
use robo_vr.Base.{
  ℕ, ◌≡◌, refl, Bool, List, [], ◌∷◌, Option, none, some, ◌≢◌, sym, ◌∙◌, if◌then◌else◌, bytes_eq,
  bytes_eq→eq, arith, All, ap, inl, inr, Option-cases,
}
use robo_vr.Protocol.KeyValue.Defs.{
  key_value, is_separator, is_semicolon, find_key_value, Values, find, emplace, emplace_field,
  parse_key_value_payload, get_value,
}
use robo_vr.Protocol.KeyValue.Fields.{
  fields, lookup_field, emplace_fields, find_key_value-lookup_field,
  parse_key_value_payload-emplace_fields,
}

abbrev pub HasNoNewline : List ℕ → Type 0
HasNoNewline = All (λ c. c ≢ 10)

fields-agree : (p : List ℕ) → HasNoNewline p → fields is_separator p ≡ fields is_semicolon p
unfolding fields
fields-agree [] h = refl
fields-agree (c ∷ cs) h = ground (arith, h.0, fields-agree cs h.1)

abbrev or_if : Option (List ℕ) → Bool → List ℕ → Option (List ℕ)
or_if (some w) b v = some w
or_if none b v = if b then some v else none

find-emplace :
    (m : Values) (k v key : List ℕ)
    → find (emplace m k v) key ≡ or_if (find m key) (bytes_eq k key) v
unfolding find emplace
find-emplace [] k v key = refl
find-emplace ((j, w) ∷ m) k v key =
    ground (arith, bytes_eq→eq j k, bytes_eq→eq j key, find-emplace m k v key)

abbrev or_else : Option (List ℕ) → List ℕ → List ℕ
or_else (some w) v = w
or_else none v = v

emplaced_none : (m : Values) (f : List ℕ) → key_value f ≡ none → emplace_field m f ≡ m
unfolding emplace_field
emplaced_none m f e = rw (e, emplace_field)

emplaced :
    (m : Values) (f k v : List ℕ) → key_value f ≡ some (k, v) → emplace_field m f ≡ emplace m k v
unfolding emplace_field
emplaced m f k v e = rw (e, emplace_field)

emplace_fields-lookup_field :
    (fs : List (List ℕ)) (m : Values) (key : List ℕ)
    → or_else (find (emplace_fields m fs) key) [] ≡ or_else (find m key) (lookup_field fs key)
unfolding emplace_fields lookup_field
emplace_fields-lookup_field [] m key = refl
emplace_fields-lookup_field (f ∷ fs) m key = elim (Option-cases (key_value f)) [
  | inl e ↦ ground (arith, e, emplaced_none m f, emplace_fields-lookup_field fs m key)
  | inr ((k, v), e) ↦ ground (
    arith,
    e,
    emplaced m f k v e,
    find-emplace m k v key,
    emplace_fields-lookup_field fs (emplace m k v) key,
  )
]

-- On a text without a newline the host's map holds, for each key, what the client's lookup finds.
pub get_value-find_key_value :
    (payload key : List ℕ)
    → HasNoNewline payload
    → get_value (parse_key_value_payload payload) key [] ≡ find_key_value payload key
get_value-find_key_value payload key h =
    rw (parse_key_value_payload-emplace_fields payload) found
    ∙ ap (λ fs. lookup_field fs key) (sym (fields-agree payload h))
    ∙ sym (find_key_value-lookup_field payload key)
  where
    found :
        get_value (emplace_fields [] (fields is_semicolon payload)) key []
        ≡ lookup_field (fields is_semicolon payload) key
    found =
        unfold get_value in
        ground (arith, emplace_fields-lookup_field (fields is_semicolon payload) [] key)
