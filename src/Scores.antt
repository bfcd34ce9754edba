-- ===== src/Scores.antt =====
-- crates/types/src/scoring.rs and tick_result.rs: scores, the scoring configuration, and what a
-- tick reports. The weights of the timescales are a list of pairs, in the map's iteration order.
use galactic_trading_firm.Prelude.{Option, none, Bool, List, String}
use galactic_trading_firm.Prelude.Maps.{Map}
use galactic_trading_firm.F64.{F64, lit}
use galactic_trading_firm.Market.{Timescale}

pub record TimescaleScores (F : Type 0) : Type 0 where
  pub one_minute : Option F
  pub five_minute : Option F
  pub one_hour : Option F
  pub one_day : Option F
  pub one_month : Option F
  pub composite : F
  pub indicator_scores : Option (Map (Option F))

pub data AggregationMethod : Type 0 where
  weighted_sum weighted_sum_with_gates min_score dynamic_fusion : AggregationMethod

pub data AgreementMode : Type 0 where
  confidence_multiplier hard_gate : AgreementMode

pub record AgreementConfig (F : Type 0) : Type 0 where
  pub enabled : Bool
  pub mode : AgreementMode
  pub exponent : F
  pub gate_threshold : F

pub record DynamicFusionConfig (F : Type 0) : Type 0 where
  pub volatility_weight : F
  pub trend_weight : F
  pub bias : F
  pub adjustment : F
  pub volatility_indicator_id : String
  pub trend_indicator_id : String

pub record ScoringConfig (F : Type 0) : Type 0 where
  pub timescale_weights : List (Timescale × F)
  pub entry_threshold : F
  pub exit_threshold : F
  pub aggregation : AggregationMethod
  pub hard_gate_timescales : List Timescale
  pub agreement : Option (AgreementConfig F)
  pub dynamic_fusion : Option (DynamicFusionConfig F)
  pub hard_gate_indicators : Map F
  pub hourly_exit_override : Option F

pub data TickEvent : Type 0 where
  nothing position_opened position_closed : TickEvent

pub record TickResult (F : Type 0) : Type 0 where
  pub scores : TimescaleScores F
  pub event : TickEvent
  pub entry_reason : String
  pub entry_blocked_by : Option String
  pub near_miss : Option String

-- `TimescaleScores::default()`
abbrev pub default_scores : {F : Type 0} ⦃f : F64 F⦄ → TimescaleScores F
default_scores = record {
  one_minute = none;
  five_minute = none;
  one_hour = none;
  one_day = none;
  one_month = none;
  composite = lit 0;
  indicator_scores = none;
}
