-- ===== src/Video/Decoder/Output.antt =====
-- `updateOutputFormat` and `drainOutput` of the decoder: the frames that the codec hands out as YUV
-- buffers. Offsets are not negative. The source computes in `std::size_t`, which wraps at 2 ^ 64.
use robo_vr.Base.{
  ℕ, zero, suc, ◌+◌, ◌*◌, ◌/◌, ◌==◌, ltb, leb, if◌then◌else◌, Bool, true, false, ◌&&◌, ◌||◌, List,
  ◌%◌, ◌^◌, to_int32, to_size, [], ◌∷◌, ◌++◌, Option, none, some, get_elem?, length, ℤ, pos,
  pos_part,
}
use robo_vr.Video.Color.{yuv_to_rgb}
use robo_vr.Video.Decoder.State.{Millis, Decoder}
use robo_vr.Video.Decoder.Select.{DecodedEyeFrame}
use robo_vr.Video.Decoder.Codec.{is_positive, OutputFormat, Layout, update_layout}

abbrev pub layout_of : {f : Millis} → Decoder f → Layout
layout_of d = record {
  stride = d.output_stride;
  slice_height = d.output_slice_height;
  color_format = d.output_color_format;
}

unfoldable pub update_output_format : {f : Millis} → Option OutputFormat → Decoder f → Decoder f
unfolding update_layout
update_output_format format d =
    let l = update_layout format (layout_of d) in
    record d {
      output_stride = l.stride;
      output_slice_height = l.slice_height;
      output_color_format = l.color_format;
    }

-- One buffer: its index, `info`, and the bytes of `AMediaCodec_getOutputBuffer`.
pub record OutputBuffer : Type 0 where
  pub index : ℕ
  pub offset : ℕ
  pub size : ℤ
  pub presentation_time_us : ℤ
  pub bytes : Option (List ℕ)

pub data YuvOutput : Type 0 where
  try_later : YuvOutput
  output_failed : YuvOutput
  format_changed : Option OutputFormat → YuvOutput
  output : OutputBuffer → YuvOutput

-- `output_stride_ > 0 ? output_stride_ : width_`, and the same of the slice height.
abbrev pub positive_or : ℤ → ℕ → ℤ
positive_or z n = if is_positive z then z else to_int32 n

-- What two reads give together; `none`: a read outside the buffer.
abbrev pub both {ℓ κ μ} :
    {A : Type ℓ} {B : Type κ} {C : Type μ} → (A → B → C) → Option A → Option B → Option C
both f none q = none
both f (some a) none = none
both f (some a) (some b) = some (f a b)

-- A loop of `count` rounds from `start`, each with the bytes that it writes.
unfoldable pub all_rounds : ℕ → ℕ → (ℕ → Option (List ℕ)) → Option (List ℕ)
all_rounds zero start round = some []
all_rounds (suc count) start round =
    both (λ now later. now ++ later) (round start) (all_rounds count (suc start) round)

abbrev pub is_format : ℤ → ℕ → Bool
is_format (pos n) k = n == k
is_format _ k = false

-- How the planes lie: the bytes of the buffer, where the frame starts in them, and the stride and slice
-- height as `std::size_t`, in which the source computes with them.
pub record Planes : Type 0 where
  pub bytes : List ℕ
  pub offset : ℕ
  pub stride : ℕ
  pub slice_height : ℕ
  pub color_format : ℤ

abbrev pub y_plane_size : Planes → ℕ
y_plane_size p = p.stride * p.slice_height % 2 ^ 64

abbrev pub read_pair : List ℕ → ℕ → ℕ → Option (ℕ × ℕ)
read_pair bytes i j = both (λ u v. (u, v)) (get_elem? bytes i) (get_elem? bytes j)

-- Two samples, when the later one is in the buffer by the test, which is in 64 bits.
abbrev pub tested_pair : List ℕ → ℕ → ℕ → Option (ℕ × ℕ)
tested_pair bytes i j =
    if ltb (j % 2 ^ 64) (length bytes) then read_pair bytes i j else some (128, 128)

-- `u_value` and `v_value` of the pixel at column x and row y.
unfoldable pub read_chroma : Planes → ℕ → ℕ → Option (ℕ × ℕ)
read_chroma p y x =
    let uv = p.offset + y_plane_size p in
    if is_format p.color_format 21
    then (let uv_index = (y / 2 * p.stride + x / 2 * 2) % 2 ^ 64 in
        tested_pair p.bytes (uv + uv_index) (uv + uv_index + 1))
    else if is_format p.color_format 19
    then (let chroma_stride = p.stride / 2 in
        let chroma_size = chroma_stride * (p.slice_height / 2) % 2 ^ 64 in
        let uv_index = (y / 2 * chroma_stride + x / 2) % 2 ^ 64 in
        tested_pair p.bytes (uv + uv_index) (uv + chroma_size + uv_index))
    else some (128, 128)

unfoldable pub pixel : ℕ → ℕ × ℕ → List ℕ
unfolding yuv_to_rgb
pixel y_value (u_value, v_value) =
    let c = yuv_to_rgb y_value u_value v_value in c.r ∷ c.g ∷ c.b ∷ 255 ∷ []

unfoldable pub read_pixel : Planes → ℕ → ℕ → Option (List ℕ)
unfolding read_chroma pixel
read_pixel p y x =
    both pixel (get_elem? p.bytes (p.offset + (y * p.stride + x) % 2 ^ 64)) (read_chroma p y x)

-- The loops over the rows and columns.
unfoldable pub read_frame : Planes → ℕ → ℕ → Option (List ℕ)
unfolding all_rounds read_pixel
read_frame p width height = all_rounds height 0 (λ y. all_rounds width 0 (read_pixel p y))

-- The state of the loop: the decoder, the frames pushed, and the buffers released.
pub record Drained (f : Millis) : Type 0 where
  pub decoder : Decoder f
  pub frames : List DecodedEyeFrame
  pub released : List (ℕ × Bool)

module _ {f : Millis} where
  abbrev pub planes : Decoder f → List ℕ → ℕ → Planes
  planes d bytes offset = record {
    bytes = bytes;
    offset = offset;
    stride = to_size (positive_or d.output_stride d.width);
    slice_height = to_size (positive_or d.output_slice_height d.height);
    color_format = d.output_color_format;
  }

  abbrev pub release : ℕ → Drained f → Drained f
  release index r = record r { released = r.released ++ (index, false) ∷ [] }

  abbrev pub push_frame : OutputBuffer → List ℕ → Drained f → Drained f
  push_frame b pixels r = record r {
    frames =
        r.frames
        ++ record { frame_index = pos_part b.presentation_time_us; rgba = pixels; valid = true }
          ∷ [];
  }

  -- What is done with the pixels read; `none`: a read outside the buffer.
  abbrev pub pushed : OutputBuffer → Drained f → Option (List ℕ) → Option (Drained f)
  pushed b r none = none
  pushed b r (some pixels) = some (release b.index (push_frame b pixels r))

  -- The body of a round on a buffer.
  unfoldable pub take_output : OutputBuffer → Drained f → Option (Drained f)
  unfolding read_frame to_int32 to_size
  take_output b r = elim b.bytes [
    | none ↦ some (release b.index r)
    | some bytes ↦
        let p = planes r.decoder bytes b.offset in
        if is_positive b.size && leb ((b.offset + y_plane_size p) % 2 ^ 64) (length bytes)
        then pushed b r (read_frame p r.decoder.width r.decoder.height)
        else some (release b.index r)
  ]

  unfoldable pub drain_rounds : ℕ → List YuvOutput → Drained f → Option (Drained f)
  unfolding take_output update_output_format
  drain_rounds zero answers r = some r
  drain_rounds (suc rounds) [] r = some r
  drain_rounds (suc rounds) (try_later ∷ answers) r = some r
  drain_rounds (suc rounds) (output_failed ∷ answers) r = some r
  drain_rounds (suc rounds) (format_changed format ∷ answers) r =
      drain_rounds rounds answers (record r { decoder = update_output_format format r.decoder })
  drain_rounds (suc rounds) (output b ∷ answers) r = elim (take_output b r) [
    | none ↦ none
    | some r' ↦ drain_rounds rounds answers r'
  ]

  unfoldable pub drain_output : Option ℕ → List YuvOutput → Decoder f → Option (Drained f)
  unfolding drain_rounds
  drain_output none answers d = some (record { decoder = d; frames = []; released = [] })
  drain_output (some codec) answers d =
      let r : Drained f = record { decoder = d; frames = []; released = [] } in
      if d.width == 0 || d.height == 0 then some r else drain_rounds 4 answers r
