-- ===== src/Host/Delivery.antt =====
-- The host's video payloads in the hands of the client's router.
use mathlib.Core.Path.{subst}
use robo_vr.Video.Decoder.Inputs.{decode_inputs}
use robo_vr.Base.{
  ◌∷◌, ◌⊎◌, inl, inr, take, take_all, Bool, false, ℕ, zero, suc, ◌+◌, ◌*◌, ◌%◌, ◌^◌, ◌≤◌, ◌<◌, ◌≡◌,
  ◌∙◌, refl, sym, ap, ◌==◌, if◌then◌else◌, Bool, true, false, List, ◌++◌, length, length-append,
  take, drop, take_prefix, drop_prefix, take_all, get_elem?, some, none, Option, arith, ℤ,
}
use robo_vr.Protocol.Wire.{IsI64}
use robo_vr.Protocol.Types.{
  VideoFrameHeader, FitsVideoHeader, pack_video_frame_header, unpack_video_frame_header,
  video_frame_header_size, video_codec,
}
use robo_vr.Protocol.RoundTrip.{
  length-pack_video_frame_header, unpack_video_frame_header-pack_video_frame_header,
}
use robo_vr.Video.Display.{Display, publish_stereo_video_frame}
use robo_vr.Video.Decoder.State.{Millis, Decoder}
use robo_vr.Video.Decoder.Decode.{Answers, decode, ensure_started}
use robo_vr.Video.Raw.{raw_decode, checked_raw_rgba_size}
use robo_vr.Host.Payloads.{
  pattern_side, eye_payload_size, pattern_pixel, written, fill_eye, pattern_header,
  make_video_test_pattern_payload, H264TestStream, h264_header, make_h264_test_payload,
}
use robo_vr.Video.Router.{dispatch, handle_payload}

-- The router takes a payload apart at the sizes in its header: a header that fits its types and
-- has an image size, packed before two payloads of the sizes that it states, reaches the codec's
-- branch with exactly these payloads.
pub handle_payload-pack :
    {f : Millis} {C : Type 0}
    → (h : VideoFrameHeader) (left right : List ℕ) (a : Answers) (d : Decoder f) (s : Display C)
    → FitsVideoHeader h
    → 1 ≤ h.width
    → 1 ≤ h.height
    → length left ≡ h.left_payload_size
    → length right ≡ h.right_payload_size
    → handle_payload (pack_video_frame_header h ++ (left ++ right)) a d s
      ≡ dispatch h a left right d s
unfolding handle_payload
handle_payload-pack {f} {C} h left right a d s fits w t l r =
    passes _ _ (d, s, false) _ (ground (arith, size)) (ground (arith, size, header, w, t, l, r))
    ∙ ap (λ g. dispatch g a (take g.left_payload_size rest) (drop g.left_payload_size rest) d s)
        header
    ∙ ap (λ x. dispatch h a (take h.left_payload_size x) (drop h.left_payload_size x) d s) images
    ∙ ap (λ x. dispatch h a x (drop h.left_payload_size (left ++ right)) d s)
        (take_prefix h.left_payload_size left right l)
    ∙ ap (λ x. dispatch h a left x d s) (drop_prefix h.left_payload_size left right l)
  where
    packed : List ℕ
    packed = pack_video_frame_header h

    payload : List ℕ
    payload = packed ++ (left ++ right)

    rest : List ℕ
    rest = drop video_frame_header_size payload

    size : length payload ≡ video_frame_header_size + (h.left_payload_size + h.right_payload_size)
    size =
        let e = length-append packed (left ++ right) in
        let g = length-append left right in
        let p = length-pack_video_frame_header h in omega (arith, e, g, p, l, r)

    header : unpack_video_frame_header payload ≡ h
    header = unpack_video_frame_header-pack_video_frame_header h (left ++ right) fits

    images : rest ≡ left ++ right
    images =
        drop_prefix video_frame_header_size packed (left ++ right)
          (length-pack_video_frame_header h)

    passes :
        (b c : Bool) (x y : Decoder f × Display C × Bool)
        → b ≡ false
        → c ≡ false
        → (if b then x else if c then x else y) ≡ y
    passes true c x y e g = cc
    passes false true x y e g = cc
    passes false false x y e g = refl

-- The payload of a frame, from the elements of the vectors at its index.
pub make_h264_test_payload-elements :
    (stream : H264TestStream) (frame_index : ℕ) (now : ℤ) (access_unit : List ℕ) (keyframe : Bool)
    → get_elem? stream.access_units (frame_index % length stream.access_units) ≡ some access_unit
    → get_elem? stream.keyframes (frame_index % length stream.access_units) ≡ some keyframe
    → make_h264_test_payload stream frame_index now
      ≡ some (
          pack_video_frame_header (h264_header stream access_unit keyframe frame_index now)
          ++ (access_unit ++ access_unit))
unfolding make_h264_test_payload
make_h264_test_payload-elements stream frame_index now access_unit keyframe u k = made _ _ u k
  where
    made :
        (x : Option (List ℕ)) (y : Option Bool)
        → x ≡ some access_unit
        → y ≡ some keyframe
        → elim x [
          | none ↦ none
          | some unit ↦ elim y [
            | none ↦ none
            | some key ↦ some (
                pack_video_frame_header (h264_header stream unit key frame_index now)
                ++ (unit ++ unit))
          ]
        ]
          ≡ some (
              pack_video_frame_header (h264_header stream access_unit keyframe frame_index now)
              ++ (access_unit ++ access_unit))
    made x y e g = rw (e, g) refl

-- The last unit that each codec has got is this one, with this index.
abbrev pub HasGot : {f : Millis} → ℕ → List ℕ → Decoder f → Type 0
HasGot frame_index access_unit d =
    (before : List (ℕ × List ℕ)) × (before' : List (ℕ × List ℕ)) × (d.left_inputs
      ≡ (frame_index, access_unit) ∷ before)
    × (d.right_inputs ≡ (frame_index, access_unit) ∷ before')

-- The payload that the host makes of an access unit, of a stream with an image size and with
-- header fields that fit their types, reaches the H.264 decoder with the header that the host
-- wrote and with the access unit for each eye; and if `handlePayload` returns true, then the last unit
-- that each codec has got is the access unit, with the index of the frame.
pub handle_payload-make_h264_test_payload :
    {f : Millis} {C : Type 0}
    → (stream : H264TestStream) (frame_index : ℕ) (now : ℤ) (access_unit payload : List ℕ)
    → (keyframe : Bool) (a : Answers) (d : Decoder f) (s : Display C)
    → get_elem? stream.access_units (frame_index % length stream.access_units) ≡ some access_unit
    → get_elem? stream.keyframes (frame_index % length stream.access_units) ≡ some keyframe
    → make_h264_test_payload stream frame_index now ≡ some payload
    → FitsVideoHeader (h264_header stream access_unit keyframe frame_index now)
    → length access_unit < 2 ^ 32
    → 1 ≤ stream.width
    → 1 ≤ stream.height
    → (handle_payload payload a d s
        ≡ decode
            (h264_header stream access_unit keyframe frame_index now)
            access_unit
            access_unit
            a
            d
            s)
      × (((handle_payload payload a d s).2 ≡ false)
          ⊎ HasGot
              (h264_header stream access_unit keyframe frame_index now).frame_index
              access_unit
              (handle_payload payload a d s).0)
unfolding dispatch video_codec decode ensure_started
handle_payload-make_h264_test_payload {f} {C} stream frame_index now access_unit payload keyframe a
      d s u k m fits small w t =
    (
      handled,
      subst
          (λ (e : Decoder f × Display C × Bool).
            (e.2 ≡ false) ⊎ HasGot header.frame_index access_unit e.0)
          (sym handled)
          (elim (decode_inputs header access_unit access_unit a d s) [
            | inl refused ↦ inl refused
            | inr (before, before', l, r) ↦ inr (
              before,
              before',
              l ∙ ap (λ bytes. (header.frame_index, bytes) ∷ before) whole,
              r ∙ ap (λ bytes. (header.frame_index, bytes) ∷ before') whole,
            )
          ]),
    )
  where
    header : VideoFrameHeader
    header = h264_header stream access_unit keyframe frame_index now

    whole : take (length access_unit % 2 ^ 32) access_unit ≡ access_unit
    whole = take_all (length access_unit % 2 ^ 32) access_unit (omega (arith, small))

    size : length access_unit ≡ length access_unit % 2 ^ 32
    size = omega (arith, small)

    packed : List ℕ
    packed = pack_video_frame_header header ++ (access_unit ++ access_unit)

    payload_of : Option (List ℕ) → List ℕ
    payload_of none = packed
    payload_of (some p) = p

    is_packed : packed ≡ payload
    is_packed =
        ap payload_of (
          sym (make_h264_test_payload-elements stream frame_index now access_unit keyframe u k) ∙ m)

    handled : handle_payload payload a d s ≡ decode header access_unit access_unit a d s
    handled =
        ap (λ p. handle_payload p a d s) (sym is_packed)
        ∙ handle_payload-pack header access_unit access_unit a d s fits w t size size

length-written :
    (count start m : ℕ) (round : ℕ → List ℕ)
    → ((i : ℕ) → length (round i) ≡ m)
    → length (written count start round) ≡ count * m
unfolding written
length-written zero start m round r = omega arith
length-written (suc count) start m round r =
    let e = length-append (round start) (written count (suc start) round) in
    let i = length-written count (suc start) m round r in let b = r start in ground (arith, e, i, b)

length-if :
    (b : Bool) (xs ys : List ℕ) (n : ℕ)
    → length xs ≡ n
    → length ys ≡ n
    → length (if b then xs else ys) ≡ n
length-if true xs ys n e g = e
length-if false xs ys n e g = g

length-pattern_pixel : (k eye y x : ℕ) → length (pattern_pixel k eye y x) ≡ 4
unfolding pattern_pixel
length-pattern_pixel k eye y x = length-if (eye == 0) _ _ 4 refl refl

pub length-fill_eye : (k eye : ℕ) → length (fill_eye k eye) ≡ eye_payload_size
unfolding fill_eye
length-fill_eye k eye =
    length-written pattern_side 0 (pattern_side * 4) _
      (λ y. length-written pattern_side 0 4 _ (λ x. length-pattern_pixel k eye y x))

-- The test pattern of any 64-bit frame number and time is shown as it was drawn, eye by eye, and
-- the decoder is left alone.
pub handle_payload-make_video_test_pattern_payload :
    {f : Millis} {C : Type 0}
    → (frame_index : ℕ) (now : ℤ) (a : Answers) (d : Decoder f) (s : Display C)
    → frame_index < 2 ^ 64
    → IsI64 now
    → handle_payload (make_video_test_pattern_payload frame_index now) a d s ≡ (
      d,
      publish_stereo_video_frame
          (record {
            frame_index = frame_index % 2 ^ 32;
            width = pattern_side;
            height = pattern_side;
            left_rgba = fill_eye frame_index 0;
            right_rgba = fill_eye frame_index 1;
          })
          s,
      true,
    )
unfolding make_video_test_pattern_payload dispatch raw_decode checked_raw_rgba_size video_codec
handle_payload-make_video_test_pattern_payload frame_index now a d s small time =
    handle_payload-pack (pattern_header frame_index now) (fill_eye frame_index 0)
      (fill_eye frame_index 1) a d s
      (record {
        codec_u16 = omega arith;
        flags_u16 = omega arith;
        stream_id_u32 = omega arith;
        frame_index_u64 = small;
        capture_time_i64 = time;
        width_u32 = omega arith;
        height_u32 = omega arith;
        left_payload_size_u32 = omega arith;
        right_payload_size_u32 = omega arith;
      })
      (omega arith) (omega arith) (length-fill_eye frame_index 0) (length-fill_eye frame_index 1)
    ∙ rw (whole 0, whole 1) refl
  where
    whole : (eye : ℕ) → take eye_payload_size (fill_eye frame_index eye) ≡ fill_eye frame_index eye
    whole eye =
        let e = length-fill_eye frame_index eye in
        take_all eye_payload_size (fill_eye frame_index eye) (omega (arith, e))
