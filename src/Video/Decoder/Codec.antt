-- ===== src/Video/Decoder/Codec.antt =====
-- `createH264Decoder`, `queueAccessUnit` and `drainSurfaceOutput` over the answers of MediaCodec.
use robo_vr.Base.{
  ℕ, zero, suc, ◌==◌, ltb, if◌then◌else◌, Bool, true, false, ◌&&◌, List, [], ◌∷◌, Option, none,
  some, ℤ, pos_part, take,
}

-- What `AMediaCodec_createDecoderByType`, `AMediaFormat_new`, `AMediaCodec_configure` and
-- `AMediaCodec_start` answer.
pub record CreateAnswers : Type 0 where
  pub codec : Option ℕ
  pub format : Bool
  pub configured : Bool
  pub started : Bool

-- The codec that is returned, and the codecs that are deleted on the way.
unfoldable pub create_h264_decoder : CreateAnswers → Option ℕ × List ℕ
create_h264_decoder a = elim a.codec [
  | none ↦ (none, [])
  | some codec ↦
      if a.format && (a.configured && a.started) then (some codec, []) else (none, codec ∷ [])
]

pub data Dequeued : Type 0 where
  try_again : Dequeued
  failed : Dequeued
  buffer : ℕ → Dequeued

-- What `dequeueInputBuffer`, `getInputBuffer` (the size of a buffer that is not null) and
-- `queueInputBuffer` answer.
pub record InputAnswers : Type 0 where
  pub dequeued : Dequeued
  pub input_size : Option ℕ
  pub queued : Bool

-- What `queueAccessUnit` leaves: its result, the input buffers that were taken from the codec and not
-- handed back to it, and the bytes that the codec got.
pub record Queued : Type 0 where
  pub result : Bool
  pub kept_buffers : List ℕ
  pub input : Option (List ℕ)

abbrev pub not_queued : List ℕ → Queued
not_queued kept_buffers = record { result = false; kept_buffers = kept_buffers; input = none }

-- `memcpy` copies `payload_size` bytes of the payload, which is not null, to the input buffer.
unfoldable pub queue_access_unit : Option ℕ → List ℕ → ℕ → InputAnswers → Queued
queue_access_unit none payload payload_size a = not_queued []
queue_access_unit (some codec) payload payload_size a =
    if payload_size == 0 then not_queued [] else elim a.dequeued [
      | try_again ↦ not_queued []
      | failed ↦ not_queued []
      | buffer index ↦ elim a.input_size [
        | none ↦ not_queued (index ∷ [])
        | some input_size ↦
            if ltb input_size payload_size
            then not_queued (index ∷ [])
            else if a.queued
            then record {
              result = true;
              kept_buffers = [];
              input = some (take payload_size payload);
            }
            else not_queued (index ∷ [])
      ]
    ]

-- What `AMediaFormat_getInt32` finds; without the key it leaves the field as it is.
pub record OutputFormat : Type 0 where
  pub stride : Option ℤ
  pub slice_height : Option ℤ
  pub color_format : Option ℤ

-- `output_stride_`, `output_slice_height_` and `output_color_format_`.
pub record Layout : Type 0 where
  pub stride : ℤ
  pub slice_height : ℤ
  pub color_format : ℤ

abbrev pub found_or : Option ℤ → ℤ → ℤ
found_or none old = old
found_or (some z) old = z

-- `updateOutputFormat` on its three fields; `none`: `AMediaCodec_getOutputFormat` returned null.
unfoldable pub update_layout : Option OutputFormat → Layout → Layout
update_layout none l = l
update_layout (some format) l = record {
  stride = found_or format.stride l.stride;
  slice_height = found_or format.slice_height l.slice_height;
  color_format = found_or format.color_format l.color_format;
}

-- One `dequeueOutputBuffer`: an index with the buffer's time and size, or one of the negative codes.
pub data Output : Type 0 where
  try_later : Output
  format_changed : Option OutputFormat → Output
  output_failed : Output
  output : ℕ → ℤ → ℤ → Output

pub record PendingOutput : Type 0 where
  pub index : ℕ
  pub frame_index : ℕ
  pub render : Bool

-- `info.size > 0`
abbrev pub is_positive : ℤ → Bool
is_positive size = ltb 0 (pos_part size)

-- The loop of at most `rounds` calls. The end of the list is a codec with nothing more to give.
unfoldable pub collect_outputs : ℕ → List Output → List PendingOutput
collect_outputs zero answers = []
collect_outputs (suc rounds) [] = []
collect_outputs (suc rounds) (try_later ∷ answers) = []
collect_outputs (suc rounds) (output_failed ∷ answers) = []
collect_outputs (suc rounds) (format_changed format ∷ answers) = collect_outputs rounds answers
collect_outputs (suc rounds) (output index time size ∷ answers) =
    record { index = index; frame_index = pos_part time; render = is_positive size }
    ∷ collect_outputs rounds answers

-- The calls of `updateOutputFormat` in the same loop.
unfoldable pub collect_layout : ℕ → List Output → Layout → Layout
unfolding update_layout
collect_layout zero answers l = l
collect_layout (suc rounds) [] l = l
collect_layout (suc rounds) (try_later ∷ answers) l = l
collect_layout (suc rounds) (output_failed ∷ answers) l = l
collect_layout (suc rounds) (format_changed format ∷ answers) l =
    collect_layout rounds answers (update_layout format l)
collect_layout (suc rounds) (output index time size ∷ answers) l = collect_layout rounds answers l

-- The frame to render so far and the buffer that holds it: `latest_render_frame` and
-- `latest_render_index`.
unfoldable pub latest_render : Option (ℕ × ℕ) → List PendingOutput → Option (ℕ × ℕ)
latest_render best [] = best
latest_render none (o ∷ os) =
    latest_render (if o.render then some (o.frame_index, o.index) else none) os
latest_render (some (frame, index)) (o ∷ os) =
    latest_render
      (if o.render && ltb frame o.frame_index
        then some (o.frame_index, o.index)
        else some (frame, index))
      os

-- `output.index == latest_render_index`, where -1 is no buffer's index.
unfoldable pub is_latest : Option (ℕ × ℕ) → PendingOutput → Bool
is_latest none o = false
is_latest (some (frame, index)) o = o.index == index

-- Each buffer is released, the latest with `render`; those go into `frame_indices`.
unfoldable pub release_outputs : Option (ℕ × ℕ) → List PendingOutput → List (ℕ × Bool) × List ℕ
unfolding is_latest
release_outputs best [] = ([], [])
release_outputs best (o ∷ os) =
    let (released, rendered) = release_outputs best os in
    (
      (o.index, is_latest best o) ∷ released,
      (if is_latest best o then o.frame_index ∷ rendered else rendered),
    )

-- The buffers released, with their render flags, and the frames rendered. Without a codec, neither.
unfoldable pub drain_surface_output : Option ℕ → List Output → List (ℕ × Bool) × List ℕ
unfolding collect_outputs latest_render release_outputs
drain_surface_output none answers = ([], [])
drain_surface_output (some codec) answers =
    let outputs = collect_outputs 32 answers in release_outputs (latest_render none outputs) outputs

-- The output layout behind it.
unfoldable pub drain_surface_layout : Option ℕ → List Output → Layout → Layout
unfolding collect_layout
drain_surface_layout none answers l = l
drain_surface_layout (some codec) answers l = collect_layout 32 answers l
