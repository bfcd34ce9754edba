-- ===== src/Actions/Sizing.antt =====
-- crates/actions/src/sizing/fixed_fractional.rs, score_scaled.rs and indicator_tiered.rs: the share of
-- the capital that an entry takes. `show n x` is the text of `{:.n}`, `debug` that of `{:?}`.
pub mod Tiers
pub mod Volatility
use Prim.Native.String.{◌++◌ as append_str}
use galactic_trading_firm.Prelude.{ℕ, Option, none, some, Bool, List, String, if◌then◌else◌}
use galactic_trading_firm.Prelude.Maps.{Map, lookup}
use galactic_trading_firm.Prelude.Sorting.{sort_by, find}
use galactic_trading_firm.F64.{F64, ◌⊕◌, ◌⊖◌, ◌⊗◌, ◌⊘◌, ◌<?◌, ◌≤?◌, lit, clamp}
use galactic_trading_firm.Action.{ActionSignal, enter, TradeDirection, long, short}
use galactic_trading_firm.Scores.{TimescaleScores}

pub record ScoreScaledSizing (F : Type 0) : Type 0 where
  pub min_fraction : F
  pub max_fraction : F
  pub entry_threshold : F

pub record Tier (F : Type 0) : Type 0 where
  pub min : F
  pub mult : F

pub record IndicatorTieredSizing (F : Type 0) : Type 0 where
  pub instance_id : String
  pub base_fraction : F
  pub tiers : List (Tier F)
  pub fallback_mult : F

module _ {F : Type 0} where
  -- `.map(|t| t.mult).unwrap_or(..)`
  abbrev pub mult_or : F → Option (Tier F) → F
  mult_or fallback none = fallback
  mult_or fallback (some t) = t.mult

  -- `.copied().flatten()`
  abbrev pub flatten : Option (Option F) → Option F
  flatten none = none
  flatten (some x) = x

  abbrev pub value_in : Option (Map (Option F)) → String → Option F
  value_in none id = none
  value_in (some m) id = flatten (lookup id m)

module _ {F : Type 0} ⦃f : F64 F⦄ where
  abbrev pub direction_of : F → TradeDirection
  direction_of composite = if lit 0 ≤? composite then long else short

  unfoldable pub evaluate_fixed_fractional :
      (ℕ → F → String) → F → TimescaleScores F → ActionSignal F
  evaluate_fixed_fractional show fraction scores =
      enter (direction_of scores.composite) fraction
        (append_str "fixed fractional sizing: " (append_str (show 1 (fraction ⊗ lit 100)) "%"))

  abbrev pub scaled_fraction : ScoreScaledSizing F → F → F → F
  scaled_fraction s score range =
      if lit 0 <? range
      then s.min_fraction
        ⊕ (s.max_fraction ⊖ s.min_fraction)
          ⊗ clamp (lit 0) (lit 1) ((score ⊖ s.entry_threshold) ⊘ range)
      else s.min_fraction

  unfoldable pub evaluate_score_scaled :
      (ℕ → F → String) → ScoreScaledSizing F → TimescaleScores F → ActionSignal F
  evaluate_score_scaled show s scores =
      let fraction = scaled_fraction s (f.abs scores.composite) (lit 1 ⊖ s.entry_threshold) in
      enter long fraction (append_str "score_scaled: " (show 4 fraction))

  -- that `a` comes after `b` in the descending order
  abbrev pub is_lower : Tier F → Tier F → Bool
  is_lower a b = a.min <? b.min

  -- `IndicatorTieredSizing::new`
  unfoldable pub new_tiered : String → F → List (Tier F) → F → IndicatorTieredSizing F
  new_tiered instance_id base_fraction tiers fallback_mult = record {
    instance_id = instance_id;
    base_fraction = base_fraction;
    tiers = sort_by is_lower tiers;
    fallback_mult = fallback_mult;
  }

  abbrev pub reaches : F → Tier F → Bool
  reaches v t = t.min ≤? v

  unfoldable pub multiplier_for : IndicatorTieredSizing F → Option F → F
  multiplier_for s none = s.fallback_mult
  multiplier_for s (some v) = mult_or s.fallback_mult (find (reaches v) s.tiers)

  unfoldable pub evaluate_indicator_tiered :
      (ℕ → F → String)
      → (Option F → String)
      → IndicatorTieredSizing F
      → TimescaleScores F
      → ActionSignal F
  evaluate_indicator_tiered show debug s scores =
      let value = value_in scores.indicator_scores s.instance_id in
      let mult = multiplier_for s value in
      enter (direction_of scores.composite) (s.base_fraction ⊗ mult) (
        append_str "indicator_tiered " (
          append_str s.instance_id
            (append_str "=" (append_str (debug value) (append_str " x" (show 2 mult))))))
