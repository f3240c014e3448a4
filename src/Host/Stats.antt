-- ===== src/Host/Stats.antt =====
-- `handleStatsPayload` of host_bridge/tools/host_bridge_demo.cpp and the globals that it and the
-- video thread share. `strtoull` is the C library's, on base 10; `now` what `monotonicTimeNs` returns.
use robo_vr.Base.{
  ◌≡◌, ==_refl, ◌||◌, ◌⊎◌, inl, inr, ap, ◌∙◌, false, refl, ℕ, ◌+◌, ◌%◌, ◌^◌, ◌==◌, ltb,
  if◌then◌else◌, Bool, true, List, [], Option, none, some, bytes_eq, ℤ, ◌-ℤ◌, arith,
}
use robo_vr.Base.Text.{codes}
use robo_vr.Base.Map.{lookup-erase_if, lookup, insert, erase_if}
use robo_vr.Protocol.KeyValue.Defs.{parse_key_value_payload, get_value, find}
use robo_vr.Video.Decoder.State.{Millis}

pub record VideoStats (f : Millis) : Type 0 where
  pub send_time_ns : List (ℕ × ℤ)
  pub ack_count : ℕ
  pub ack_latency_sum_ms : f.Value
  pub latest_ack_frame : ℕ
  pub has_ack : Bool

none_twice :
    {V : Type 0} (x y : Bool) (o : Option V)
    → (if y then none else if x then none else o) ≡ (if x || y then none else o)
none_twice true true o = refl
none_twice true false o = refl
none_twice false y o = refl

none_or :
    {V : Type 0} (x y : Bool) (o : Option V)
    → (x ≡ true → o ≡ none)
    → (if y then none else o) ≡ (if x || y then none else o)
none_or true true o h = refl
none_or true false o h = h refl
none_or false y o h = refl

module _ {f : Millis} where
  -- The first block under the mutex, on what the lookup of the frame has found.
  abbrev pub matched : Option ℤ → ℕ → ℤ → VideoStats f → VideoStats f
  matched none k now st = st
  matched (some sent) k now st = record st {
    send_time_ns = erase_if (λ j. j == k) st.send_time_ns;
    ack_count = (st.ack_count + 1) % 2 ^ 64;
    ack_latency_sum_ms = f.add st.ack_latency_sum_ms (f.of_ns (now -ℤ sent));
    latest_ack_frame = k;
    has_ack = true;
  }

  unfoldable pub match_ack : ℕ → ℤ → VideoStats f → VideoStats f
  match_ack frame_index now st = matched (lookup frame_index st.send_time_ns) frame_index now st

  -- The second block.
  unfoldable pub forget_old : ℕ → VideoStats f → VideoStats f
  forget_old frame_index st = record st {
    send_time_ns = erase_if (λ j. ltb ((j + 300) % 2 ^ 64) frame_index) st.send_time_ns;
  }

  unfoldable pub handle_stats_payload : (List ℕ → ℕ) → ℤ → List ℕ → VideoStats f → VideoStats f
  unfolding match_ack forget_old
  handle_stats_payload strtoull now payload st =
      let values = parse_key_value_payload payload in
      if bytes_eq (get_value values (codes "kind") []) (codes "video_ack")
      then elim (find values (codes "frame_index")) [
        | none ↦ st
        | some text ↦ forget_old (strtoull text) (match_ack (strtoull text) now st)
      ]
      else st

  -- The entry that the video thread makes once a frame is sent.
  unfoldable pub record_send : ℕ → ℤ → VideoStats f → VideoStats f
  record_send frame_index now st = record st {
    send_time_ns = insert frame_index now st.send_time_ns;
  }

  matched-absent :
      (k : ℕ) (now : ℤ) (st : VideoStats f) (o : Option ℤ)
      → lookup k st.send_time_ns ≡ o
      → lookup k (matched o k now st).send_time_ns ≡ none
  matched-absent k now st none e = e
  matched-absent k now st (some sent) e =
      lookup-erase_if (λ j. j == k) k st.send_time_ns
      ∙ ap (λ b. if b then none else lookup k st.send_time_ns) (==_refl k)

  -- An acknowledgement is counted once: a second one of the same frame changes nothing.
  pub match_ack_twice :
      (k : ℕ) (now later : ℤ) (st : VideoStats f)
      → match_ack k later (match_ack k now st) ≡ match_ack k now st
  unfolding match_ack
  match_ack_twice k now later st =
      let m = match_ack k now st in
      let absent : lookup k m.send_time_ns ≡ none =
        matched-absent k now st (lookup k st.send_time_ns) refl in
      ap (λ o. matched o k later m) absent

  -- The acknowledgement of frame `k` is counted exactly when the time at which `k` was sent is on
  -- record, and then `k` becomes the latest frame acknowledged. The record keeps the times of all
  -- other frames but those more than 300 before `k`, in sums of 64 bits, and not that of `k`.
  pub match_ack_lem :
      (k : ℕ) (now : ℤ) (st : VideoStats f)
      → let e = forget_old k (match_ack k now st) in
        ((lookup k st.send_time_ns ≡ none)
            × (e.ack_count ≡ st.ack_count)
            × (e.latest_ack_frame ≡ st.latest_ack_frame)
            × (e.has_ack ≡ st.has_ack)
          ⊎ ((sent : ℤ) × (lookup k st.send_time_ns ≡ some sent)
              × (e.ack_count ≡ (st.ack_count + 1) % 2 ^ 64)
              × (e.latest_ack_frame ≡ k)
              × (e.has_ack ≡ true)))
        × ((j : ℕ)
            → lookup j e.send_time_ns
              ≡ (if j == k || ltb ((j + 300) % 2 ^ 64) k then none else lookup j st.send_time_ns))
  unfolding match_ack forget_old
  match_ack_lem k now st = by_lookup (lookup k st.send_time_ns) refl
    where
      is_same : (j : ℕ) → (j == k) ≡ true → j ≡ k
      is_same j h = ground (arith, h)

      Result : Option ℤ → Type 0
      Result o =
          let m = matched o k now st in
          ((lookup k st.send_time_ns ≡ none)
              × (m.ack_count ≡ st.ack_count)
              × (m.latest_ack_frame ≡ st.latest_ack_frame)
              × (m.has_ack ≡ st.has_ack)
            ⊎ ((sent : ℤ) × (lookup k st.send_time_ns ≡ some sent)
                × (m.ack_count ≡ (st.ack_count + 1) % 2 ^ 64)
                × (m.latest_ack_frame ≡ k)
                × (m.has_ack ≡ true)))
          × ((j : ℕ)
              → lookup j (erase_if (λ i. ltb ((i + 300) % 2 ^ 64) k) m.send_time_ns)
                ≡ (if j == k || ltb ((j + 300) % 2 ^ 64) k then none else lookup j st.send_time_ns))

      is_old : ℕ → Bool
      is_old i = ltb ((i + 300) % 2 ^ 64) k

      unsent :
          lookup k st.send_time_ns ≡ none
          → (j : ℕ)
          → lookup j (erase_if is_old st.send_time_ns)
            ≡ (if j == k || is_old j then none else lookup j st.send_time_ns)
      unsent e j =
          lookup-erase_if is_old j st.send_time_ns
          ∙ none_or (j == k) (is_old j) (lookup j st.send_time_ns)
              (λ h. ap (λ i. lookup i st.send_time_ns) (is_same j h) ∙ e)

      forgotten :
          (j : ℕ)
          → lookup j (erase_if is_old (erase_if (λ i. i == k) st.send_time_ns))
            ≡ (if j == k || is_old j then none else lookup j st.send_time_ns)
      forgotten j =
          lookup-erase_if is_old j (erase_if (λ i. i == k) st.send_time_ns)
          ∙ ap (λ o. if is_old j then none else o) (lookup-erase_if (λ i. i == k) j st.send_time_ns)
          ∙ none_twice (j == k) (is_old j) (lookup j st.send_time_ns)

      by_lookup : (o : Option ℤ) → lookup k st.send_time_ns ≡ o → Result o
      by_lookup none e = (inl (e, refl, refl, refl), λ j. unsent e j)
      by_lookup (some sent) e = (inr (sent, e, refl, refl, refl), λ j. forgotten j)
