-- ===== src/Client/Buffer.antt =====
-- The buffer of `formatPosePayload` of quest_client/app/src/main/cpp/native_main.cpp.
use robo_vr.Base.{
  ℕ, ◌+◌, ◌≤◌, ◌≡◌, Bool, true, false, List, [], ◌∷◌, ◌++◌, length, length-append, replicate,
  take_all, arith, ℤ, sym,
}
use mathlib.Core.Path.{subst}
use robo_vr.Protocol.KeyValue.Format.{Pair, pair, format}
use robo_vr.Video.Decoder.State.{Millis}
use robo_vr.Client.Reports.{Printers, HeadPoseSample, digit, pose_fields, format_pose_payload}

-- The widest that C prints: a number of 64 bits has at most 20 characters, and a float at most 39
-- digits before the point, with a sign.
pub record AreShort {F : Type 0} {f : Millis} (p : Printers F f) : Type 0 where
  pub signed_short : (i : ℤ) → length (p.signed i) ≤ 20
  pub unsigned_short : (n : ℕ) → length (p.unsigned n) ≤ 20
  pub fixed6_short : (x : F) → length (p.fixed6 x) ≤ 47
  pub fixed3_short : (x : F) → length (p.fixed3 x) ≤ 44

-- Each value within the width at its place.
abbrev Fits : List Pair → List ℕ → Type 0
Fits [] [] = Unit {0}
Fits [] (w ∷ ws) = ⊥
Fits (q ∷ qs) [] = ⊥
Fits ((k, v) ∷ qs) (w ∷ ws) = (length v ≤ w) × Fits qs ws

abbrev budget : List Pair → List ℕ → ℕ
budget [] ws = 0
budget (q ∷ qs) [] = 0
budget ((k, v) ∷ qs) (w ∷ ws) = length k + 2 + w + budget qs ws

length-pair : (k v : List ℕ) → length (pair (k, v)) ≡ length k + 1 + length v
length-pair k v = omega (arith, length-append k (b'=' ∷ v))

length-format : (ps : List Pair) (ws : List ℕ) → Fits ps ws → length (format ps) ≤ budget ps ws
unfolding format
length-format [] ws h = omega arith
length-format (q ∷ qs) [] h = elim h [ ]
length-format ((k, v) ∷ []) (w ∷ ws) (e, h) = omega (arith, e, length-pair k v)
length-format ((k, v) ∷ q ∷ qs) (w ∷ ws) (e, h) = omega (
  arith,
  e,
  length-pair k v,
  length-format (q ∷ qs) ws h,
  length-append (pair (k, v)) (b';' ∷ format (q ∷ qs)),
)

digit_short : (b : Bool) → length (digit b) ≤ 1
digit_short true = omega arith
digit_short false = omega arith

abbrev widths : List ℕ
widths =
    20 ∷ 20 ∷ replicate 7 47
    ++ (20 ∷ replicate 23 47)
    ++ (20 ∷ replicate 7 47)
    ++ (20 ∷ replicate 7 47)
    ++ (20 ∷ replicate 7 47)
    ++ (20 ∷ replicate 7 47)
    ++ replicate 4 44
    ++ replicate 4 1

module _ {F : Type 0} {f : Millis} (p : Printers F f) (s : AreShort p) where
  pose_fields-Fits : (x : HeadPoseSample F) → Fits (pose_fields p x) widths
  unfolding pose_fields
  pose_fields-Fits x =
      search (s.signed_short, s.unsigned_short, s.fixed6_short, s.fixed3_short, digit_short, tt)

  -- The buffer of 4096 bytes holds every pose report: of the widest numbers that C prints for its
  -- types, the text has at most 4046 characters, and nothing of it is cut.
  pub format_pose_payload-whole :
      (x : HeadPoseSample F)
      → (length (format_pose_payload p x) ≤ 4046)
        × (format_pose_payload p x ≡ format (pose_fields p x))
  unfolding format_pose_payload
  format_pose_payload-whole x =
      let fits : length (format (pose_fields p x)) ≤ 4046 =
        unfold pose_fields in length-format (pose_fields p x) widths (pose_fields-Fits x) in
      let whole = take_all 4095 (format (pose_fields p x)) (omega (arith, fits)) in
      (subst (λ text. length text ≤ 4046) (sym whole) fits, whole)
