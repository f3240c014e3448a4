-- ===== src/Renderer/Rate.antt =====
-- `requestDisplayRefreshRate`, over an order of floats and the distance of two of them.
use mathlib.Core.Path.{subst}
use robo_vr.Base.{
  ◌≡◌, ◌⊎◌, inl, inr, refl, sym, Bool, true, false, not, ◌||◌, if◌then◌else◌, List, [], ◌∷◌, Option,
  none, some, All,
}

-- `<` on floats, and `std::abs(a - b)`.
pub record Rates : Type 1 where
  pub Float : Type 0
  pub less : Float → Float → Bool
  pub distance : Float → Float → Float

-- The order on floats that are numbers.
pub record IsOrder (r : Rates) : Type 0 where
  pub irreflexive : (a : r.Float) → r.less a a ≡ false
  pub asymmetric : (a b : r.Float) → r.less a b ≡ true → r.less b a ≡ false
  pub transitive : (a b c : r.Float) → r.less b a ≡ false → r.less c b ≡ false → r.less c a ≡ false

module _ (r : Rates) where
  open r use {Float}

  -- The loop, with the best rate so far.
  unfoldable pub nearest : Float → Float → List Float → Float
  nearest requested_hz selected_hz [] = selected_hz
  nearest requested_hz selected_hz (rate ∷ rates) =
      nearest requested_hz
        (if r.less (r.distance rate requested_hz) (r.distance selected_hz requested_hz)
          then rate
          else selected_hz)
        rates

  -- The fields that it reads and writes: the extension with its function, the rates, and whether a
  -- rate was requested.
  pub record RateState : Type 0 where
    pub enabled : Bool
    pub has_request : Bool
    pub requested : Bool
    pub supported : List Float

  unfoldable pub select_rate : Float → List Float → Float
  unfolding nearest
  select_rate requested_hz [] = requested_hz
  select_rate requested_hz (front ∷ rates) = nearest requested_hz front (front ∷ rates)

  -- The state, and the rate that the runtime was asked for; `accepts` is its answer.
  unfoldable pub request_display_refresh_rate : Bool → Float → RateState → RateState × Option Float
  unfolding select_rate
  request_display_refresh_rate accepts requested_hz s =
      if not s.enabled || not s.has_request || s.requested
      then (s, none)
      else (record s { requested = accepts }, some (select_rate requested_hz s.supported))

  -- `a` is a rate of the list.
  pub data IsOne (a : Float) : List Float → Type 0 where
    here : {rates : List Float} → IsOne a (a ∷ rates)
    there : {b : Float} {rates : List Float} → IsOne a rates → IsOne a (b ∷ rates)

  -- None of the rates is nearer than `a` to the one requested.
  abbrev pub NoneNearer : Float → Float → List Float → Type 0
  NoneNearer requested_hz a =
      All (λ rate. r.less (r.distance rate requested_hz) (r.distance a requested_hz) ≡ false)

  module _ (o : IsOrder r) (requested_hz : Float) where
    abbrev IsBest : Float → List Float → Type 0
    IsBest a rates = IsOne a rates × NoneNearer requested_hz a rates

    nearest_lem :
        (selected : Float) (rates : List Float)
        → IsBest (nearest requested_hz selected rates) (selected ∷ rates)
    unfolding nearest
    nearest_lem selected [] = (here, (o.irreflexive _, tt))
    nearest_lem selected (rate ∷ rates) =
        by_test _ refl (nearest_lem rate rates) (nearest_lem selected rates)
      where
        error : Float → Float
        error a = r.distance a requested_hz

        by_test :
            (b : Bool)
            → r.less (error rate) (error selected) ≡ b
            → IsBest (nearest requested_hz rate rates) (rate ∷ rates)
            → IsBest (nearest requested_hz selected rates) (selected ∷ rates)
            → IsBest
                (nearest requested_hz (if b then rate else selected) rates)
                (selected ∷ rate ∷ rates)
        by_test true e (one, (no_nearer, rest)) h = (
          there one,
          (
            o.transitive _ (error rate) (error selected) no_nearer (o.asymmetric _ _ e),
            (no_nearer, rest),
          ),
        )
        by_test false e h (one, (no_nearer, rest)) = (
          skip_second one,
          (no_nearer, (o.transitive _ (error selected) (error rate) no_nearer e, rest)),
        )
          where
            skip_second :
                {a : Float} → IsOne a (selected ∷ rates) → IsOne a (selected ∷ rate ∷ rates)
            skip_second here = here
            skip_second (there m) = there (there m)

    -- With the extension enabled and a list of supported rates: unless a rate was accepted before, the
    -- runtime is asked for one of the supported rates to which no other is nearer to the rate wanted,
    -- and its answer is kept; once a rate was accepted, it is not asked again.
    pub request_display_refresh_rate_lem :
        (accepts : Bool) (s : RateState) (front : Float) (rates : List Float)
        → s.enabled ≡ true
        → s.has_request ≡ true
        → s.supported ≡ front ∷ rates
        → let (s', asked) = request_display_refresh_rate accepts requested_hz s in
          ((s.requested ≡ true) × (asked ≡ none) × (s' ≡ s))
          ⊎ ((s.requested ≡ false)
              × ((rate : Float) × (asked ≡ some rate)
                  × IsOne rate s.supported
                  × NoneNearer requested_hz rate s.supported)
              × (s'.requested ≡ accepts))
    unfolding request_display_refresh_rate select_rate
    request_display_refresh_rate_lem accepts s front rates e h k = by_requested _ refl _ refl
      where
        once : {a : Float} → IsOne a (front ∷ front ∷ rates) → IsOne a (front ∷ rates)
        once here = here
        once (there m) = m

        best : IsBest (select_rate requested_hz s.supported) s.supported
        best =
            subst (λ rs. IsBest (select_rate requested_hz rs) rs) (sym k)
              (let (one, (_, none_nearer)) = nearest_lem front (front ∷ rates) in
                (once one, none_nearer))

        asks : RateState × Option Float
        asks = (record s { requested = accepts }, some (select_rate requested_hz s.supported))

        by_requested :
            (b : Bool)
            → s.requested ≡ b
            → (t : Bool) → (not s.enabled || not s.has_request || s.requested) ≡ t
            → let (s', asked) = if◌then◌else◌ {A = RateState × Option Float} t (s, none) asks in
              ((s.requested ≡ true) × (asked ≡ none) × (s' ≡ s))
              ⊎ ((s.requested ≡ false)
                  × ((rate : Float) × (asked ≡ some rate)
                      × IsOne rate s.supported
                      × NoneNearer requested_hz rate s.supported)
                  × (s'.requested ≡ accepts))
        by_requested true m true n = inl (m, refl, refl)
        by_requested true m false n = absurd (cc)
        by_requested false m true n = absurd (cc)
        by_requested false m false n =
            inr (m, (select_rate requested_hz s.supported, refl, best.0, best.1), refl)
