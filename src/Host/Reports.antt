-- ===== src/Host/Reports.antt =====
-- The texts that the client reports with, in the hands of the host: `formatPosePayload` and the
-- acknowledgements of native_main.cpp, `formatPoseSummary` and `handleStatsPayload` of
-- host_bridge_demo.cpp.
use robo_vr.Base.{
  ℕ, ◌≤◌, ◌≡◌, refl, ap, sym, ◌∙◌, Bool, true, false, List, [], ◌∷◌, ◌++◌, some, none, length, map,
  All, arith, ℤ,
}
use mathlib.Core.Path.{subst}
use robo_vr.Base.Text.{codes}
use robo_vr.Protocol.KeyValue.Defs.{Values, find, get_value, parse_key_value_payload}
use robo_vr.Protocol.KeyValue.Format.{Pair, format}
use robo_vr.Protocol.KeyValue.Report.{
  IsNumeral, HasNumeral, HasNumeral-IsEntry, IsEntry, find-parse_key_value_payload,
  find-parse_key_value_payload-format,
}
use robo_vr.Video.Decoder.State.{Millis}
use robo_vr.Client.Reports.{Printers, HeadPoseSample, digit, pose_fields, format_pose_payload}
use robo_vr.Client.Buffer.{AreShort, format_pose_payload-whole}
use robo_vr.Host.Callback.{summary_parts, render, shown_part, format_pose_summary}

-- What `snprintf` prints for a number has a byte, and neither `;` nor a newline.
pub record ArePlain {F : Type 0} {f : Millis} (p : Printers F f) : Type 0 where
  pub signed_plain : (i : ℤ) → IsNumeral (p.signed i)
  pub unsigned_plain : (n : ℕ) → IsNumeral (p.unsigned n)
  pub fixed6_plain : (x : F) → IsNumeral (p.fixed6 x)
  pub fixed3_plain : (x : F) → IsNumeral (p.fixed3 x)
  pub millis3_plain : (x : f.Value) → IsNumeral (p.millis3 x)

digit-IsNumeral : (b : Bool) → IsNumeral (digit b)
digit-IsNumeral true = (omega arith, (refl, tt))
digit-IsNumeral false = (omega arith, (refl, tt))

module _ {F : Type 0} {f : Millis} (p : Printers F f) where
  -- The fields that the summary is about, each behind its text.
  abbrev pub shown : HeadPoseSample F → List Pair
  shown x =
      (codes "head=(", p.fixed6 x.pose.px)
      ∷ (codes ",", p.fixed6 x.pose.py)
      ∷ (codes ",", p.fixed6 x.pose.pz)
      ∷ (codes ") ipd_m=", p.fixed6 x.ipd_m)
      ∷ (codes " Lfov=(", p.fixed6 x.left_eye_fov.angle_left)
      ∷ (codes ",", p.fixed6 x.left_eye_fov.angle_right)
      ∷ (codes ",", p.fixed6 x.left_eye_fov.angle_up)
      ∷ (codes ",", p.fixed6 x.left_eye_fov.angle_down)
      ∷ (codes ") Rfov=(", p.fixed6 x.right_eye_fov.angle_left)
      ∷ (codes ",", p.fixed6 x.right_eye_fov.angle_right)
      ∷ (codes ",", p.fixed6 x.right_eye_fov.angle_up)
      ∷ (codes ",", p.fixed6 x.right_eye_fov.angle_down)
      ∷ (codes ") L{grip=", p.unsigned x.left_grip_flags)
      ∷ (codes " aim=", p.unsigned x.left_aim_flags)
      ∷ (codes " trig=", p.fixed3 x.left_trigger)
      ∷ (codes " sqz=", p.fixed3 x.left_squeeze)
      ∷ (codes " X=", digit x.button_x)
      ∷ (codes " Y=", digit x.button_y)
      ∷ (codes "} R{grip=", p.unsigned x.right_grip_flags)
      ∷ (codes " aim=", p.unsigned x.right_aim_flags)
      ∷ (codes " trig=", p.fixed3 x.right_trigger)
      ∷ (codes " sqz=", p.fixed3 x.right_squeeze)
      ∷ (codes " A=", digit x.button_a)
      ∷ (codes " B=", digit x.button_b)
      ∷ []

module _ {F : Type 0} {f : Millis} (p : Printers F f) (n : ArePlain p) where
  pose_fields-HasNumeral : (x : HeadPoseSample F) → All HasNumeral (pose_fields p x)
  unfolding pose_fields
  pose_fields-HasNumeral x =
      search (n.fixed6_plain, n.unsigned_plain, n.fixed3_plain, n.signed_plain, digit-IsNumeral, tt)

  pose_fields-IsEntry : (x : HeadPoseSample F) → All IsEntry (pose_fields p x)
  unfolding pose_fields
  pose_fields-IsEntry x = HasNumeral-IsEntry (pose_fields p x) refl (pose_fields-HasNumeral x)

  -- The host's map of a pose report has every field of the sample, as the client printed it, under
  -- its key.
  pub find-format_pose_payload :
      (s : AreShort p) (x : HeadPoseSample F)
      → All
          (λ q. find (parse_key_value_payload (format_pose_payload p x)) q.0 ≡ some q.1)
          (pose_fields p x)
  find-format_pose_payload s x =
      subst
        (λ text. All (λ q. find (parse_key_value_payload text) q.0 ≡ some q.1) (pose_fields p x))
        (sym (format_pose_payload-whole p s x).1)
        (find-parse_key_value_payload-format (pose_fields p x) (pose_fields-IsEntry x)
          (unfold pose_fields in refl))

  -- The part of a summary that shows `q`: the sample has a number, `q.1`, under the part's key.
  abbrev Shows : HeadPoseSample F → List Pair → List Pair → Type 0
  Shows x [] [] = Unit {0}
  Shows x [] (q ∷ qs) = ⊥
  Shows x (a ∷ parts) [] = ⊥
  Shows x ((text, key) ∷ parts) ((text', v) ∷ qs) =
      (text ≡ text') × (find (pose_fields p x) key ≡ some v) × IsNumeral v × Shows x parts qs

  all_shown : (x : HeadPoseSample F) → Shows x summary_parts (shown p x)
  unfolding pose_fields find
  all_shown x = search (n.fixed6_plain, n.unsigned_plain, n.fixed3_plain, digit-IsNumeral, tt)

  render-Shows :
      (x : HeadPoseSample F) (values : Values) (parts qs : List Pair)
      → ((key v : List ℕ)
          → find (pose_fields p x) key ≡ some v
          → 1 ≤ length v
          → find values key ≡ some v)
      → Shows x parts qs
      → render (map (shown_part values) parts) ≡ render qs
  unfolding get_value
  render-Shows x values [] [] reads h = refl
  render-Shows x values [] (q ∷ qs) reads h = elim h [ ]
  render-Shows x values (a ∷ parts) [] reads h = elim h [ ]
  render-Shows x values ((text, key) ∷ parts) ((text', v) ∷ qs) reads (e, f, (one, _), h) =
      let there = reads key v f one in
      let value : get_value values key (codes "?") ≡ v =
        ap (λ o. elim o [ none ↦ codes "?" | some w ↦ w ]) there in
      ap (λ w. text ++ w ++ render (map (shown_part values) parts)) value
      ∙ ap (λ rest. text ++ v ++ rest) (render-Shows x values parts qs reads h)
      ∙ ap (λ t. t ++ v ++ render qs) e

  -- The summary that the host prints of a pose report shows the numbers of the sample that the
  -- client printed: the head's position, the distance of
  -- the eyes, their fields of view, and for each hand the flags, the two levers and the buttons.
  pub format_pose_summary-format_pose_payload :
      (s : AreShort p) (x : HeadPoseSample F)
      → format_pose_summary (format_pose_payload p x) ≡ render (shown p x)
  unfolding format_pose_summary
  format_pose_summary-format_pose_payload s x =
      ap (λ text. render (map (shown_part (parse_key_value_payload text)) summary_parts))
        (format_pose_payload-whole p s x).1
      ∙ render-Shows x (parse_key_value_payload (format (pose_fields p x))) summary_parts
          (shown p x)
          (λ key v. find-parse_key_value_payload (pose_fields p x) key v (pose_fields-IsEntry x))
          (all_shown x)
