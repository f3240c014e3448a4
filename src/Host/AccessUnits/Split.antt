-- ===== src/Host/AccessUnits/Split.antt =====
-- The start codes of `loadH264TestStream` and its loop over the NAL units between them.
use robo_vr.Base.{
  ℕ, zero, suc, ◌+◌, ◌-◌, ◌%◌, ◌==◌, ltb, leb, if◌then◌else◌, Bool, true, false, not, ◌&&◌, ◌||◌,
  List, [], ◌∷◌, ◌++◌, Option, none, some, get_elem?, length, take, drop,
}
use robo_vr.Host.Payloads.{H264TestStream}
use robo_vr.Host.AccessUnits.Slice.{read_first_mb_in_slice}

abbrev pub is_byte : List ℕ → ℕ → ℕ → Bool
is_byte bytes i b = elim (get_elem? bytes i) [ none ↦ false | some a ↦ a == b ]

unfoldable pub start_code_size : List ℕ → ℕ → ℕ
start_code_size bytes offset =
    if leb (offset + 3) (length bytes)
      && is_byte bytes offset 0
      && is_byte bytes (offset + 1) 0
      && is_byte bytes (offset + 2) 1
    then 3
    else if leb (offset + 4) (length bytes)
        && is_byte bytes offset 0
        && is_byte bytes (offset + 1) 0
        && is_byte bytes (offset + 2) 0
        && is_byte bytes (offset + 3) 1
    then 4
    else 0

-- The loop of `find_start_code`, at most `rounds` rounds of it.
unfoldable pub scan : ℕ → List ℕ → ℕ → Option ℕ
scan zero bytes i = none
scan (suc rounds) bytes i =
    let rest = scan rounds bytes (suc i) in
    if leb (i + 3) (length bytes)
    then (if start_code_size bytes i == 0 then rest else some i)
    else none

-- `none` is `npos`.
unfoldable pub find_start_code : List ℕ → ℕ → Option ℕ
find_start_code bytes offset = scan (length bytes) bytes offset

pub record Units : Type 0 where
  pub access_units : List (List ℕ)
  pub keyframes : List Bool
  pub current_access_unit : List ℕ
  pub current_has_vcl : Bool
  pub current_is_keyframe : Bool

abbrev pub no_units : Units
no_units = record {
  access_units = [];
  keyframes = [];
  current_access_unit = [];
  current_has_vcl = false;
  current_is_keyframe = false;
}

unfoldable pub push_current : Units → Units
push_current u = record {
  access_units = u.access_units ++ u.current_access_unit ∷ [];
  keyframes = u.keyframes ++ u.current_is_keyframe ∷ [];
  current_access_unit = [];
  current_has_vcl = false;
  current_is_keyframe = false;
}

abbrev pub is_empty : List ℕ → Bool
is_empty [] = true
is_empty (b ∷ bytes) = false

abbrev pub value_or_zero : Option ℕ → ℕ
value_or_zero none = 0
value_or_zero (some n) = n

abbrev pub is_slice : ℕ → Bool
is_slice nal_type = nal_type == 1 || nal_type == 5

-- What a NAL unit ends before it is appended: `nal_body` starts at its header.
unfoldable pub begin_nal : ℕ → List ℕ → Units → Units
begin_nal nal_type nal_body u =
    if is_slice nal_type
    then (let v =
          if u.current_has_vcl && value_or_zero (read_first_mb_in_slice nal_body) == 0
          then push_current u
          else u in
        record v {
          current_has_vcl = true;
          current_is_keyframe = v.current_is_keyframe || nal_type == 5;
        })
    else if nal_type == 9 && not (is_empty u.current_access_unit)
    then push_current u
    else u

abbrev pub append_nal : List ℕ → Units → Units
append_nal nal u = record u { current_access_unit = u.current_access_unit ++ nal }

-- The bytes from `start` up to `end`.
abbrev pub slice : List ℕ → ℕ → ℕ → List ℕ
slice bytes start stop = take (stop - start) (drop start bytes)

-- A round at `nal_start`, whose start code has `size` bytes.
unfoldable pub take_nal : List ℕ → ℕ → ℕ → ℕ → Units → Units
take_nal bytes nal_start header_offset nal_end u =
    if ltb header_offset nal_end
    then append_nal (slice bytes nal_start nal_end) (
        begin_nal (value_or_zero (get_elem? bytes header_offset) % 32)
          (slice bytes header_offset nal_end) u)
    else u

abbrev pub end_of : List ℕ → Option ℕ → ℕ
end_of bytes none = length bytes
end_of bytes (some n) = n

-- `none`: the rounds did not suffice.
unfoldable pub split : ℕ → List ℕ → Option ℕ → Units → Option Units
split fuel bytes none u = some u
split zero bytes (some nal_start) u = none
split (suc fuel) bytes (some nal_start) u =
    let header_offset = nal_start + start_code_size bytes nal_start in
    let next_nal = find_start_code bytes header_offset in
    split fuel bytes next_nal (take_nal bytes nal_start header_offset (end_of bytes next_nal) u)

abbrev pub stream_of : List (List ℕ) → List Bool → ℕ → ℕ → H264TestStream
stream_of access_units keyframes width height = record {
  access_units = access_units;
  keyframes = keyframes;
  width = width;
  height = height;
  fps = 30;
}

-- `access_units.empty()` behind the loop.
unfoldable pub units_or_file : List ℕ → ℕ → ℕ → List (List ℕ) → List Bool → H264TestStream
units_or_file bytes width height [] keyframes = stream_of (bytes ∷ []) (true ∷ []) width height
units_or_file bytes width height (unit ∷ units) keyframes =
    stream_of (unit ∷ units) keyframes width height

-- Behind the loop.
unfoldable pub finish : List ℕ → ℕ → ℕ → Units → H264TestStream
finish bytes width height u =
    let v = if is_empty u.current_access_unit then u else push_current u in
    units_or_file bytes width height v.access_units v.keyframes

-- `bytes` is the file; `none` also if it is empty. A file that cannot be opened is one more `none`.
unfoldable pub load_h264_test_stream : Option (List ℕ) → ℕ → ℕ → Option H264TestStream
load_h264_test_stream none width height = none
load_h264_test_stream (some []) width height = none
load_h264_test_stream (some (b ∷ bytes)) width height =
    elim (split (suc (length (b ∷ bytes))) (b ∷ bytes) (find_start_code (b ∷ bytes) 0) no_units) [
      | none ↦ none
      | some u ↦ some (finish (b ∷ bytes) width height u)
    ]
