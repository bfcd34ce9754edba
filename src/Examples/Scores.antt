-- ===== src/Examples/Scores.antt =====
-- A composite by the minimum.
use galactic_trading_firm.Prelude.{Option, refl, some, [], ◌∷◌}
use galactic_trading_firm.Prelude.Maps.{Map}
use galactic_trading_firm.F64.{lit}
use galactic_trading_firm.F64.Decimal.{Decimal, decimal_f64, decimal-IsOrdered}
use galactic_trading_firm.Market.{one_minute, one_hour}
use galactic_trading_firm.Scores.{TimescaleScores, ScoringConfig, AggregationMethod, default_scores}
use galactic_trading_firm.Engine.Scoring.{compute_composite_with_indicators, available}
use galactic_trading_firm.Engine.Scoring.Floor.{
  Gated, GatesPass, compute_composite_with_indicators-IsFloor,
}
use galactic_trading_firm.Examples.{scoring}

abbrev two_scores : TimescaleScores Decimal
two_scores = record default_scores { one_minute = some (lit 3); one_hour = some (lit 2) }

-- with an indicator that is not below its minimum
abbrev weighted : ScoringConfig Decimal
weighted = record scoring {
  timescale_weights = (one_minute, lit 1) ∷ (one_hour, lit 1) ∷ [];
  aggregation = AggregationMethod.min_score;
  hard_gate_indicators = ("vpin_1m", lit 1) ∷ [];
}

abbrev outputs : Map (Option Decimal)
outputs = ("vpin_1m", some (lit 4)) ∷ []

compute_composite_with_indicators-IsFloor_example :
    Gated
      (GatesPass weighted.hard_gate_indicators (some outputs))
      (compute_composite_with_indicators two_scores weighted (some outputs)).composite
      (available two_scores weighted.timescale_weights)
unfolding available
compute_composite_with_indicators-IsFloor_example =
    compute_composite_with_indicators-IsFloor decimal-IsOrdered two_scores weighted (some outputs)
      refl (refl, (refl, tt)) refl tt
