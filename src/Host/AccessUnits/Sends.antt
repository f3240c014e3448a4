-- ===== src/Host/AccessUnits/Sends.antt =====
-- `makeH264TestPayload` on a stream that `loadH264TestStream` has loaded.
use robo_vr.Base.{
  ℕ, suc, ◌%◌, ◌≤◌, ◌≡◌, Bool, List, ◌∷◌, ◌++◌, some, length, get_elem?-within, get_elem?-All,
  arith, ℤ,
}
use robo_vr.Protocol.Types.{pack_video_frame_header}
use robo_vr.Host.Payloads.{H264TestStream, h264_header, make_h264_test_payload}
use robo_vr.Host.Delivery.{make_h264_test_payload-elements}
use robo_vr.Host.AccessUnits.Split.{load_h264_test_stream}
use robo_vr.Host.AccessUnits.Load.{IsFilled, load_h264_test_stream-IsSendable}

-- Once a file that is not empty is loaded, each frame index has a payload: no index is past the end
-- of a vector. The payload is the frame's header and twice one access unit that is not empty.
pub make_h264_test_payload-load_h264_test_stream :
    (b : ℕ) (bytes : List ℕ) (width height frame_index : ℕ) (now : ℤ)
    → (stream : H264TestStream) × (access_unit : List ℕ) × (keyframe : Bool)
      × (load_h264_test_stream (some (b ∷ bytes)) width height ≡ some stream)
      × IsFilled access_unit
      × (make_h264_test_payload stream frame_index now
          ≡ some (
              pack_video_frame_header (h264_header stream access_unit keyframe frame_index now)
              ++ (access_unit ++ access_unit)))
make_h264_test_payload-load_h264_test_stream b bytes width height frame_index now =
    let (stream, loaded, (some_unit, same, filled)) =
      load_h264_test_stream-IsSendable b bytes width height in
    let i : ℕ = frame_index % length stream.access_units in
    let inside : suc i ≤ length stream.access_units = omega (arith, some_unit) in
    let (access_unit, e) = get_elem?-within stream.access_units i inside in
    let (keyframe, k) = get_elem?-within stream.keyframes i (omega (arith, inside, same)) in
    (
      stream,
      access_unit,
      keyframe,
      loaded,
      get_elem?-All IsFilled stream.access_units i access_unit filled e,
      make_h264_test_payload-elements stream frame_index now access_unit keyframe e k,
    )
