-- ===== src/Engine/Outputs.antt =====
-- The indicator stage of `on_tick` (crates/engine/src/tick_loop.rs) and the aggregation of its
-- outputs by timescale (crates/indicators/src/aggregation.rs).
use Prim.Native.String.{◌++◌ as append_str}
use galactic_trading_firm.Prelude.{
  Option, none, some, Bool, true, List, [], ◌∷◌, map, String, if◌then◌else◌, ◌&&◌,
}
use galactic_trading_firm.Prelude.Maps.{Map, insert, lookup}
use galactic_trading_firm.F64.{F64, ◌⊗◌, ◌⊘◌, ◌<?◌, lit, sum}
use galactic_trading_firm.Market.{
  MarketState, Timescale, timescale_eq, one_minute, five_minute, one_hour, one_day, one_month,
}
use galactic_trading_firm.Scores.{TimescaleScores}
use galactic_trading_firm.Action.{
  Caught, returned, panicked, Indicator, IndicatorOutput, IndicatorConfig,
}

module _ {F : Type 0} where
  abbrev pub insert_metadata : String → Map F → Map (Option F) → Map (Option F)
  insert_metadata id [] outputs = outputs
  insert_metadata id ((key, value) ∷ rest) outputs =
      insert_metadata id rest (insert (append_str id (append_str "." key)) (some value) outputs)

  abbrev pub record_output :
      String → Caught (Option (IndicatorOutput F)) → Map (Option F) → Map (Option F)
  record_output id (returned (some output)) outputs =
      insert_metadata id output.metadata (insert id (some output.score) outputs)
  record_output id (returned none) outputs = insert id none outputs
  record_output id panicked outputs = insert id none outputs

  -- the loop over the indicators, from the map built so far
  unfoldable pub compute_outputs :
      Map (Indicator F) → MarketState F → Map (Option F) → Map (Option F)
  compute_outputs [] market outputs = outputs
  compute_outputs ((id, indicator) ∷ rest) market outputs =
      compute_outputs rest market (record_output id (indicator.compute market) outputs)

  -- an entry that is there and has a score
  abbrev pub score_of : Option (Option F) → Option F
  score_of (some (some s)) = some s
  score_of _ = none

  abbrev pub pair_if : Bool → Option F → F → List (F × F) → List (F × F)
  pair_if true (some s) weight rest = (s, weight) ∷ rest
  pair_if _ _ weight rest = rest

  -- the pairs of one timescale, in the order of the configurations
  unfoldable pub pairs_of : Timescale → Map (Option F) → List (IndicatorConfig F) → List (F × F)
  pairs_of ts outputs [] = []
  pairs_of ts outputs (cfg ∷ cfgs) =
      pair_if (cfg.enabled && timescale_eq cfg.timescale ts)
        (score_of (lookup cfg.instance_id outputs)) cfg.weight (pairs_of ts outputs cfgs)

module _ {F : Type 0} ⦃f : F64 F⦄ where
  abbrev pub weight_of : F × F → F
  weight_of (score, weight) = weight

  abbrev pub product_of : F × F → F
  product_of (score, weight) = score ⊗ weight

  unfoldable pub aggregate_timescale_scores : List (F × F) → Option F
  aggregate_timescale_scores [] = none
  aggregate_timescale_scores (p ∷ ps) =
      let total_weight = sum (map weight_of (p ∷ ps)) in
      if f.abs total_weight <? f.epsilon
      then none
      else some (sum (map product_of (p ∷ ps)) ⊘ total_weight)

  unfoldable pub compute_timescale_scores :
      Map (Option F) → List (IndicatorConfig F) → TimescaleScores F
  compute_timescale_scores outputs configs =
      let get_score =
        λ (ts : Timescale). aggregate_timescale_scores (pairs_of ts outputs configs) in
      record {
        one_minute = get_score one_minute;
        five_minute = get_score five_minute;
        one_hour = get_score one_hour;
        one_day = get_score one_day;
        one_month = get_score one_month;
        composite = lit 0;
        indicator_scores = none;
      }
