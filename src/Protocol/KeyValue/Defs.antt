-- ===== src/Protocol/KeyValue/Defs.antt =====
-- The two parsers of `key=value` texts, and the reference by which they are judged.
use robo_vr.Base.{
  ℕ, zero, suc, Bool, ◌||◌, List, [], ◌∷◌, Option, none, some, ◌==◌, if◌then◌else◌, bytes_eq,
  length,
}

-- What stands before the first separator, and what follows it (`none`: npos).
unfoldable pub before : (ℕ → Bool) → List ℕ → List ℕ
before sep [] = []
before sep (c ∷ cs) = if sep c then [] else c ∷ before sep cs

unfoldable pub after : (ℕ → Bool) → List ℕ → Option (List ℕ)
after sep [] = none
after sep (c ∷ cs) = if sep c then some cs else after sep cs

abbrev pub is_equal : ℕ → Bool
is_equal c = c == b'='

abbrev pub is_semicolon : ℕ → Bool
is_semicolon c = c == b';'

-- `find_first_of(";\n")`
abbrev pub is_separator : ℕ → Bool
is_separator c = c == b';' || c == 10

-- A field cut at its first `=`.
unfoldable pub key_value : List ℕ → Option (List ℕ × List ℕ)
unfolding before after
key_value field = elim (after is_equal field) [
  | none ↦ none
  | some value ↦ some (before is_equal field, value)
]

-- The loop of `findKeyValue`, with one unit of fuel a round; `none` means that the fuel ran out.
unfoldable pub find_loop : ℕ → List ℕ → List ℕ → Option (List ℕ)
find_loop zero rest key = none
find_loop (suc fuel) [] key = some []
find_loop (suc fuel) (c ∷ cs) key =
    let field = before is_separator (c ∷ cs) in
    let next : Option (List ℕ) = elim (after is_separator (c ∷ cs)) [
      | none ↦ some []
      | some rest ↦ find_loop fuel rest key
    ] in
    elim (key_value field) [ none ↦ next | some (k, v) ↦ if bytes_eq k key then some v else next ]

abbrev pub get_or_empty : Option (List ℕ) → List ℕ
get_or_empty none = []
get_or_empty (some v) = v

-- Each round but the last consumes a byte, so the length and one more are enough.
unfoldable pub find_key_value : List ℕ → List ℕ → List ℕ
unfolding find_loop
find_key_value payload key = get_or_empty (find_loop (suc (length payload)) payload key)

-- `std::unordered_map<std::string, std::string>`: `emplace` keeps an entry that is there.
abbrev pub Values : Type 0
Values = List (List ℕ × List ℕ)

unfoldable pub find : Values → List ℕ → Option (List ℕ)
find [] key = none
find ((k, v) ∷ m) key = if bytes_eq k key then some v else find m key

unfoldable pub emplace : Values → List ℕ → List ℕ → Values
emplace [] key value = (key, value) ∷ []
emplace ((k, v) ∷ m) key value = if bytes_eq k key then (k, v) ∷ m else (k, v) ∷ emplace m key value

-- `values.emplace(…)` on a field that has a `=`.
unfoldable pub emplace_field : Values → List ℕ → Values
unfolding emplace
emplace_field m field = elim (key_value field) [ none ↦ m | some (k, v) ↦ emplace m k v ]

unfoldable pub parse_loop : ℕ → List ℕ → Values → Option Values
parse_loop zero rest m = none
parse_loop (suc fuel) [] m = some m
parse_loop (suc fuel) (c ∷ cs) m =
    let m' = emplace_field m (before is_semicolon (c ∷ cs)) in
    elim (after is_semicolon (c ∷ cs)) [ none ↦ some m' | some rest ↦ parse_loop fuel rest m' ]

abbrev pub get_or_none_found : Option Values → Values
get_or_none_found none = []
get_or_none_found (some m) = m

unfoldable pub parse_key_value_payload : List ℕ → Values
unfolding parse_loop
parse_key_value_payload payload = get_or_none_found (parse_loop (suc (length payload)) payload [])

unfoldable pub get_value : Values → List ℕ → List ℕ → List ℕ
unfolding find
get_value values key fallback = elim (find values key) [ none ↦ fallback | some v ↦ v ]
