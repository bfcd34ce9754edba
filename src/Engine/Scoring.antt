-- ===== src/Engine/Scoring.antt =====
-- crates/engine/src/scoring.rs: the composite score. A function that mutates `scores.composite`
-- returns the new scores.
pub mod Floor
use galactic_trading_firm.Prelude.{
  Option, none, some, Bool, true, false, List, [], ◌∷◌, map, length, leb, ◌&&◌, if◌then◌else◌,
}
use galactic_trading_firm.Prelude.Maps.{Map, lookup}
use galactic_trading_firm.F64.{F64, ◌⊕◌, ◌⊖◌, ◌⊗◌, ◌⊘◌, ◌<?◌, lit, max, min, sum}
use galactic_trading_firm.Market.{Timescale, one_minute, five_minute, one_hour, one_day, one_month}
use galactic_trading_firm.Scores.{
  TimescaleScores, AggregationMethod, AgreementMode, AgreementConfig, DynamicFusionConfig,
  ScoringConfig,
}
use galactic_trading_firm.Engine.Outputs.{score_of}

abbrev pub get_timescale_score : {F : Type 0} → TimescaleScores F → Timescale → Option F
get_timescale_score scores one_minute = scores.one_minute
get_timescale_score scores five_minute = scores.five_minute
get_timescale_score scores one_hour = scores.one_hour
get_timescale_score scores one_day = scores.one_day
get_timescale_score scores one_month = scores.one_month

module _ {F : Type 0} ⦃f : F64 F⦄ where
  abbrev pub is_positive : Option F → Bool
  is_positive none = false
  is_positive (some s) = lit 0 <? s

  unfoldable pub gates_pass : TimescaleScores F → List Timescale → Bool
  gates_pass scores [] = true
  gates_pass scores (ts ∷ rest) =
      is_positive (get_timescale_score scores ts) && gates_pass scores rest

  unfoldable pub hard_gates_pass : TimescaleScores F → ScoringConfig F → Bool
  hard_gates_pass scores config = gates_pass scores config.hard_gate_timescales

  -- one round of a weighted loop, on the running sum and the running weight
  abbrev pub weigh : Option F → F → F × F → F × F
  weigh none weight (total, active) = (total, active)
  weigh (some score) weight (total, active) = (total ⊕ score ⊗ weight, active ⊕ weight)

  unfoldable pub weigh_all : TimescaleScores F → List (Timescale × F) → F × F → F × F
  weigh_all scores [] acc = acc
  weigh_all scores ((ts, weight) ∷ rest) acc =
      weigh_all scores rest (weigh (get_timescale_score scores ts) weight acc)

  abbrev pub average_of : F × F → F
  average_of (total, active) = if f.abs active <? f.epsilon then lit 0 else total ⊘ active

  unfoldable pub weighted_sum : TimescaleScores F → ScoringConfig F → F
  weighted_sum scores config = average_of (weigh_all scores config.timescale_weights (lit 0, lit 0))

  -- the scores that are there, for the timescales that have a weight
  unfoldable pub available : TimescaleScores F → List (Timescale × F) → List F
  available scores [] = []
  available scores ((ts, weight) ∷ rest) = elim (get_timescale_score scores ts) [
    | none ↦ available scores rest
    | some s ↦ s ∷ available scores rest
  ]

  unfoldable pub fold_min : F → List F → F
  fold_min acc [] = acc
  fold_min acc (x ∷ xs) = fold_min (min acc x) xs

  unfoldable pub fold_max : F → List F → F
  fold_max acc [] = acc
  fold_max acc (x ∷ xs) = fold_max (max acc x) xs

  abbrev pub min_of_found : List F → F
  min_of_found [] = lit 0
  min_of_found (x ∷ xs) = fold_min f.infinity (x ∷ xs)

  unfoldable pub min_score : TimescaleScores F → ScoringConfig F → F
  min_score scores config = min_of_found (available scores config.timescale_weights)

  unfoldable pub compute_agreement : TimescaleScores F → ScoringConfig F → F
  compute_agreement scores config =
      let found = available scores config.timescale_weights in
      if leb (length found) 1
      then lit 1
      else lit 1 ⊖ (fold_max f.neg_infinity found ⊖ fold_min f.infinity found) ⊘ lit 2

  abbrev pub gated_sum : TimescaleScores F → ScoringConfig F → F
  gated_sum scores config =
      if hard_gates_pass scores config then weighted_sum scores config else lit 0

  -- sigmoid of the gate input, moved to [-adjustment, +adjustment]
  abbrev pub fusion_shift : DynamicFusionConfig F → F → F → F
  fusion_shift fc vol trend =
      let gate_input = vol ⊗ fc.volatility_weight ⊖ trend ⊗ fc.trend_weight ⊕ fc.bias in
      let gate = lit 1 ⊘ (lit 1 ⊕ f.exp (f.neg gate_input)) in
      (gate ⊖ lit 1 ⊘ lit 2) ⊗ lit 2 ⊗ fc.adjustment

  abbrev pub shift_of : F → Timescale → F
  shift_of shift one_minute = shift
  shift_of shift five_minute = lit 0
  shift_of shift one_hour = f.neg shift
  shift_of shift one_day = f.neg shift
  shift_of shift one_month = f.neg shift

  abbrev pub adjust_weight : F → Timescale × F → Timescale × F
  adjust_weight shift (ts, w) = (ts, max (w ⊕ shift_of shift ts) (lit 0))

  abbrev pub weight_value : Timescale × F → F
  weight_value (ts, w) = w

  unfoldable pub fused : TimescaleScores F → ScoringConfig F → F → F
  fused scores config shift =
      let adjusted = map (adjust_weight shift) config.timescale_weights in
      let total = sum (map weight_value adjusted) in
      if f.abs total <? f.epsilon
      then lit 0
      else if hard_gates_pass scores config
      then average_of (weigh_all scores adjusted (lit 0, lit 0))
      else lit 0

  -- with both indicator readings the weights shift; without either they stay
  abbrev pub fusion_of :
      TimescaleScores F → ScoringConfig F → DynamicFusionConfig F → Option F → Option F → F
  fusion_of scores config fc (some vol) (some trend) =
      fused scores config (fusion_shift fc vol trend)
  fusion_of scores config fc _ _ = gated_sum scores config

  abbrev pub fusion_with :
      TimescaleScores F
      → ScoringConfig F
      → Option (DynamicFusionConfig F)
      → Option (Map (Option F))
      → F
  fusion_with scores config (some fc) (some outputs) =
      fusion_of scores config fc (score_of (lookup fc.volatility_indicator_id outputs))
        (score_of (lookup fc.trend_indicator_id outputs))
  fusion_with scores config _ _ = gated_sum scores config

  unfoldable pub dynamic_fusion : TimescaleScores F → ScoringConfig F → Option (Map (Option F)) → F
  dynamic_fusion scores config outputs = fusion_with scores config config.dynamic_fusion outputs

  abbrev pub raw_composite_by :
      AggregationMethod → TimescaleScores F → ScoringConfig F → Option (Map (Option F)) → F
  raw_composite_by AggregationMethod.weighted_sum scores config outputs = weighted_sum scores config
  raw_composite_by AggregationMethod.weighted_sum_with_gates scores config outputs =
      gated_sum scores config
  raw_composite_by AggregationMethod.min_score scores config outputs = min_score scores config
  raw_composite_by AggregationMethod.dynamic_fusion scores config outputs =
      dynamic_fusion scores config outputs

  abbrev pub is_below : Option F → F → Bool
  is_below none threshold = false
  is_below (some score) threshold = score <? threshold

  -- some gated indicator has a score below its minimum
  unfoldable pub indicator_gate_fails : Map F → Map (Option F) → Bool
  indicator_gate_fails [] outputs = false
  indicator_gate_fails ((id, threshold) ∷ rest) outputs =
      if is_below (score_of (lookup id outputs)) threshold
      then true
      else indicator_gate_fails rest outputs

  abbrev pub gate_fails_in : Map F → Option (Map (Option F)) → Bool
  gate_fails_in gates none = false
  gate_fails_in gates (some outputs) = indicator_gate_fails gates outputs

  abbrev pub by_mode : AgreementMode → AgreementConfig F → F → F → F
  by_mode AgreementMode.confidence_multiplier ac raw agreement = raw ⊗ f.powf agreement ac.exponent
  by_mode AgreementMode.hard_gate ac raw agreement =
      if agreement <? ac.gate_threshold then lit 0 else raw

  abbrev pub with_agreement :
      Option (AgreementConfig F) → TimescaleScores F → ScoringConfig F → F → F
  with_agreement none scores config raw = raw
  with_agreement (some ac) scores config raw =
      if ac.enabled then by_mode ac.mode ac raw (compute_agreement scores config) else raw

  unfoldable pub compute_composite_with_indicators :
      TimescaleScores F → ScoringConfig F → Option (Map (Option F)) → TimescaleScores F
  compute_composite_with_indicators scores config outputs =
      let raw = raw_composite_by config.aggregation scores config outputs in
      record scores {
        composite =
            if gate_fails_in config.hard_gate_indicators outputs
            then lit 0
            else with_agreement config.agreement scores config raw;
      }

  unfoldable pub compute_composite : TimescaleScores F → ScoringConfig F → TimescaleScores F
  compute_composite scores config = compute_composite_with_indicators scores config none
