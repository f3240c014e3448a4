-- ===== src/Video/Decoder/Newest.antt =====
-- What the surface path of `decode` publishes.
use robo_vr.Base.{
  ℕ, ◌<◌, ◌≤◌, ◌≡◌, ◌⊎◌, inl, inr, refl, sym, ap, ◌∙◌, Bool, ◌||◌, true, false, not, ltb, List, [],
  ◌∷◌, Option, none, some, ltb→lt, if◌then◌else◌, arith,
}
use robo_vr.Base.Map.{lookup}
use robo_vr.Video.Decoder.Select.{select_surface, is_true, is_old, newer}

-- An entry that says that the frame is there.
abbrev pub Marked : ℕ → List (ℕ × Bool) → Type 0
Marked k [] = ⊥
Marked k ((j, ready) ∷ m) = ((j ≡ k) × (ready ≡ true)) ⊎ Marked k m

-- Both eyes have the frame, and it comes after the last one published, if there is one.
pub record IsCandidate (has_published : Bool) (last : ℕ) (left right : List (ℕ × Bool)) (k : ℕ)
    : Type 0 where
  pub in_left : Marked k left
  pub in_right : lookup k right ≡ some true
  pub is_new : has_published ≡ true → last < k

-- The newest of the numbers that a predicate holds of, or none when it holds of none.
abbrev pub Newest : (ℕ → Type 0) → Option ℕ → Type 0
Newest P none = (k : ℕ) → ¬ P k
Newest P (some k) = P k × ((j : ℕ) → P j → j ≤ k)

Newest-cast :
    {P Q : ℕ → Type 0}
    → ((k : ℕ) → P k → Q k)
    → ((k : ℕ) → Q k → P k)
    → (best : Option ℕ) → Newest P best
    → Newest Q best
Newest-cast to from none n = λ k q. n k (from k q)
Newest-cast to from (some k) (p, n) = (to k p, λ j q. n j (from j q))

Newest-newer :
    (P : ℕ → Type 0) (k : ℕ) (best : Option ℕ)
    → Newest P best
    → Newest (λ j. P j ⊎ (j ≡ k)) (newer k best)
Newest-newer P k none n =
    (inr refl, λ j h. elim h [ inl p ↦ absurd (n j p) | inr e ↦ omega (arith, e) ])
Newest-newer P k (some b) (p, n) = by_test (ltb b k) refl
  where
    by_test : (t : Bool) → ltb b k ≡ t → Newest (λ j. P j ⊎ (j ≡ k)) (if t then some k else some b)
    by_test true e = (
      inr refl,
      λ j h. elim h [
        | inl q ↦ let m : j ≤ b = n j q in omega (arith, m, ltb→lt b k e)
        | inr g ↦ omega (arith, g)
      ],
    )
    by_test false e = (inl p, λ j h. elim h [ inl q ↦ n j q | inr g ↦ ground (arith, g, e) ])

module _ (has : Bool) (last : ℕ) (right : List (ℕ × Bool)) where
  -- The head of the list is a candidate.
  abbrev Head : ℕ → Bool → ℕ → Type 0
  Head k ready j = (j ≡ k) × (ready ≡ true) × (lookup k right ≡ some true) × (has ≡ true → last < k)

  Newest-round :
      (P : ℕ → Type 0) (k : ℕ) (ready : Bool) (best : Option ℕ)
      → Newest P best
      → Newest
          (λ j. P j ⊎ Head k ready j)
          (if not ready || is_old has last k
            then best
            else if not (is_true (lookup k right))
            then best
            else newer k best)
  Newest-round P k ready best n = by_tests ready (is_old has last k) (lookup k right) refl refl
    where
      Round : Bool → Bool → Option Bool → Type 0
      Round r old m =
          Newest (λ j. P j ⊎ ((j ≡ k) × (r ≡ true) × (m ≡ some true) × (has ≡ true → last < k)))
            (if not r || old then best else if not (is_true m) then best else newer k best)

      skip : {A : ℕ → Type 0} → ((j : ℕ) → ¬ A j) → Newest (λ j. P j ⊎ A j) best
      skip never =
          Newest-cast (λ j p. inl p) (λ j h. elim h [ inl p ↦ p | inr a ↦ absurd (never j a) ]) best
            n

      by_tests :
          (r old : Bool) (m : Option Bool)
          → is_old has last k ≡ old
          → lookup k right ≡ m
          → Round r old m
      by_tests false old m e g = skip (λ j a. cc)
      by_tests true true m e g = skip (λ j a. ground (arith, e, a.0, a.3))
      by_tests true false none e g = skip (λ j a. cc)
      by_tests true false (some false) e g = skip (λ j a. cc)
      by_tests true false (some true) e g =
          Newest-cast
            (λ j h. elim h [
              | inl p ↦ inl p
              | inr q ↦ inr (q, refl, refl, λ x. ground (arith, e, x))
            ])
            (λ j h. elim h [ inl p ↦ inl p | inr a ↦ inr a.0 ]) (newer k best)
            (Newest-newer P k best n)

  select_surface-Newest :
      (left : List (ℕ × Bool)) (P : ℕ → Type 0) (best : Option ℕ)
      → Newest P best
      → Newest
          (λ j. P j ⊎ IsCandidate has last left right j)
          (select_surface has last right best left)
  unfolding select_surface
  select_surface-Newest [] P best n =
      Newest-cast (λ j p. inl p) (λ j h. elim h [ inl p ↦ p | inr c ↦ absurd c.in_left ]) best n
  select_surface-Newest ((k, ready) ∷ left) P best n =
      Newest-cast
        (λ j h. elim h [
          | inl (inl p) ↦ inl p
          | inl (inr (e, r, m, w)) ↦ inr (record {
            in_left = inl (sym e, r);
            in_right = ap (λ i. lookup i right) e ∙ m;
            is_new = λ x. (let y : last < k = w x in omega (arith, e, y));
          })
          | inr c ↦
              inr (record { in_left = inr c.in_left; in_right = c.in_right; is_new = c.is_new })
        ])
        (λ j h. elim h [
          | inl p ↦ inl (inl p)
          | inr c ↦ elim c.in_left [
            | inl (e, r) ↦ inl (
                inr (
                  sym e,
                  r,
                  ap (λ i. lookup i right) e ∙ c.in_right,
                  λ x. (let y = c.is_new x in omega (arith, e, y)),
                ))
            | inr m ↦ inr (record { in_left = m; in_right = c.in_right; is_new = c.is_new })
          ]
        ])
        _ (select_surface-Newest left (λ j. P j ⊎ Head k ready j) _ (Newest-round P k ready best n))

  -- The loop finds the newest frame that is a candidate, and nothing only when there is none.
  pub select_surface_lem :
      (left : List (ℕ × Bool))
      → Newest (IsCandidate has last left right) (select_surface has last right none left)
  select_surface_lem left =
      Newest-cast (λ j h. elim h [ inl p ↦ absurd p | inr c ↦ c ]) (λ j c. inr c) _
        (select_surface-Newest left (λ _. ⊥) none (λ j p. p))
