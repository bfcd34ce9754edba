-- ===== src/Actions/Sizing/Volatility.antt =====
-- crates/actions/src/sizing/volatility_scaled.rs: `f64::clamp` panics unless its bounds are in order.
use Prim.Native.String.{◌++◌ as append_str}
use galactic_trading_firm.Prelude.{
  ℕ, ◌≡◌, inl, inr, refl, Option, none, some, Bool, true, false, String, if◌then◌else◌, Bool-cases,
}
use galactic_trading_firm.F64.{F64, ◌⊗◌, ◌⊘◌, ◌<?◌, ◌≤?◌, lit, clamp, IsNumber}
use galactic_trading_firm.F64.Laws.{IsOrdered}
use galactic_trading_firm.F64.Order.{le_of_not_lt}
use galactic_trading_firm.Market.{MarketState, Timescale}
use galactic_trading_firm.Scores.{TimescaleScores}
use galactic_trading_firm.Action.{
  ActionSignal, hold, enter, Position, Caught, returned, panicked, TradeDirection, long, short,
}
use galactic_trading_firm.Engine.Position.{is_some}
use galactic_trading_firm.Actions.Sizing.{direction_of}
use galactic_trading_firm.Actions.Atr.{Ta, compute_atr}

pub record VolatilityScaledSizing (F : Type 0) : Type 0 where
  pub base_fraction : F
  pub atr_period : ℕ
  pub baseline_atr : F
  pub max_fraction : F
  pub min_fraction : F
  pub timescale : Timescale

module _ {F : Type 0} ⦃f : F64 F⦄ where
  abbrev pub clamp_or_panic : F → F → F → Caught F
  clamp_or_panic low high a = if low ≤? high then returned (clamp low high a) else panicked

  abbrev pub fraction_for : VolatilityScaledSizing F → Caught (Option F) → Caught F
  fraction_for s panicked = panicked
  fraction_for s (returned none) = returned s.base_fraction
  fraction_for s (returned (some atr)) =
      if f.epsilon <? atr
      then clamp_or_panic s.min_fraction s.max_fraction (s.base_fraction ⊘ (atr ⊘ s.baseline_atr))
      else returned s.base_fraction

  abbrev pub enter_with : (ℕ → F → String) → TimescaleScores F → Caught F → Caught (ActionSignal F)
  enter_with show scores panicked = panicked
  enter_with show scores (returned fraction) = returned (
      enter (direction_of scores.composite) fraction
        (append_str "volatility-scaled sizing: " (append_str (show 2 (fraction ⊗ lit 100)) "%")))

  unfoldable pub evaluate_volatility_scaled :
      Ta F
      → (ℕ → F → String)
      → VolatilityScaledSizing F
      → Option (Position F)
      → MarketState F
      → TimescaleScores F
      → Caught (ActionSignal F)
  evaluate_volatility_scaled t show s position market scores =
      if is_some position
      then returned hold
      else enter_with show scores (fraction_for s (compute_atr t s.atr_period s.timescale market))

  -- `x` is `q` moved into the bounds: the bound that `q` has passed, else `q` itself; inside the
  -- bounds unless `q` is NaN
  abbrev pub Clamped : F → F → F → F → Type 0
  Clamped low high q x =
      ((q <? low) ≡ true → x ≡ low)
      × ((q <? low) ≡ false → (high <? q) ≡ true → x ≡ high)
      × ((q <? low) ≡ false → (high <? q) ≡ false → x ≡ q)
      × (IsNumber q → ((low ≤? x) ≡ true) × ((x ≤? high) ≡ true))

  -- The fraction at an average true range: the base one where there is none or it is next to zero, and
  -- else the base one over the ratio of the range to its baseline, in the bounds.
  abbrev pub IsSize : VolatilityScaledSizing F → Option F → F → Type 0
  IsSize s none x = x ≡ s.base_fraction
  IsSize s (some atr) x =
      ((f.epsilon <? atr) ≡ false → x ≡ s.base_fraction)
      × ((f.epsilon <? atr) ≡ true
          → Clamped s.min_fraction s.max_fraction (s.base_fraction ⊘ (atr ⊘ s.baseline_atr)) x)

  -- long from a composite of 0 on
  abbrev pub IsSide : F → TradeDirection → Type 0
  IsSide composite long = (lit 0 ≤? composite) ≡ true
  IsSide composite short = (lit 0 ≤? composite) ≡ false

  -- A signal of this action, by the position that is held and the average true range.
  abbrev pub IsSized :
      VolatilityScaledSizing F
      → Option (Position F)
      → Caught (Option F)
      → F
      → Caught (ActionSignal F)
      → Type 0
  IsSized s (some p) atr composite r = r ≡ returned hold
  IsSized s none panicked composite r = r ≡ panicked
  IsSized s none (returned atr) composite r =
      (x : F) × (direction : TradeDirection) × (reason : String) × (r
        ≡ returned (enter direction x reason))
      × IsSide composite direction
      × IsSize s atr x

module _ {F : Type 0} ⦃f : F64 F⦄ (o : IsOrdered F) where
  clamp-within :
      (low high q : F)
      → (low ≤? high) ≡ true
      → IsNumber q
      → ((low ≤? clamp low high q) ≡ true) × ((clamp low high q ≤? high) ≡ true)
  clamp-within low high q h n =
      let (l, k) = o.number_of_le low high h in
      elim (Bool-cases (q <? low)) [
        | inl c ↦ rw c (l, h)
        | inr c ↦
            let above = le_of_not_lt o q low n l c in
            rw c (elim (Bool-cases (high <? q)) [
              | inl d ↦ rw d (h, k)
              | inr d ↦ rw d (above, le_of_not_lt o high q k n d)
            ])
      ]

  clamp-Clamped : (low high q : F) → (low ≤? high) ≡ true → Clamped low high q (clamp low high q)
  clamp-Clamped low high q h = (
    λ c. rw c refl,
    λ c d. rw (c, d) refl,
    λ c d. rw (c, d) refl,
    λ n. clamp-within low high q h n,
  )

  side_lem : (composite : F) → IsSide composite (direction_of composite)
  side_lem composite = by_sign (lit 0 ≤? composite) refl
    where
      by_sign : (b : Bool) → (lit 0 ≤? composite) ≡ b → IsSide composite (if b then long else short)
      by_sign true e = e
      by_sign false e = e

  sized :
      (show : ℕ → F → String) (s : VolatilityScaledSizing F) (scores : TimescaleScores F)
      (atr : Option F) (x : F)
      → IsSize s atr x
      → IsSized s none (returned atr) scores.composite (enter_with show scores (returned x))
  sized show s scores atr x h =
      (x, direction_of scores.composite, _, refl, side_lem scores.composite, h)

  enter_with-IsSized :
      (show : ℕ → F → String) (s : VolatilityScaledSizing F) (scores : TimescaleScores F)
      (atr : Caught (Option F))
      → (s.min_fraction ≤? s.max_fraction) ≡ true
      → IsSized s none atr scores.composite (enter_with show scores (fraction_for s atr))
  enter_with-IsSized show s scores panicked h = refl
  enter_with-IsSized show s scores (returned none) h = sized show s scores none _ refl
  enter_with-IsSized show s scores (returned (some atr)) h = by_range (f.epsilon <? atr) refl
    where
      by_range :
          (b : Bool)
          → (f.epsilon <? atr) ≡ b
          → IsSized s none (returned (some atr)) scores.composite (
              enter_with show scores (
                if b
                then clamp_or_panic s.min_fraction s.max_fraction
                    (s.base_fraction ⊘ (atr ⊘ s.baseline_atr))
                else returned s.base_fraction))
      by_range true c = rw h (
          sized show s scores (some atr) _
            (λ d. cc, λ d. clamp-Clamped s.min_fraction s.max_fraction _ h))
      by_range false c = sized show s scores (some atr) _ (λ d. refl, λ d. cc)

  -- With bounds in order, volatility sizing holds while a position is held, and panics without one
  -- only where the average true range does. Else it enters, long exactly from a composite of 0 on,
  -- with the base fraction where there is no range or one next to zero, and with the base fraction
  -- over the ratio of the range to its baseline elsewhere, moved to the bound that it passes. The
  -- latter is inside the bounds unless that quotient is NaN.
  pub evaluate_volatility_scaled-IsSized :
      (t : Ta F) (show : ℕ → F → String) (s : VolatilityScaledSizing F)
      (position : Option (Position F)) (market : MarketState F) (scores : TimescaleScores F)
      → (s.min_fraction ≤? s.max_fraction) ≡ true
      → IsSized s position
          (compute_atr t s.atr_period s.timescale market)
          scores.composite
          (evaluate_volatility_scaled t show s position market scores)
  unfolding evaluate_volatility_scaled
  evaluate_volatility_scaled-IsSized t show s (some p) market scores h = refl
  evaluate_volatility_scaled-IsSized t show s none market scores h =
      enter_with-IsSized show s scores (compute_atr t s.atr_period s.timescale market) h
