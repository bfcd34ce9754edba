-- ===== src/Actions/Conditions.antt =====
-- crates/actions/src/entry/conditions.rs: the conditions of entry windows and reject gates. The text
-- of a number with two decimals is a parameter, `show`.
use Prim.Native.String.{◌++◌ as append_str}
use galactic_trading_firm.Prelude.{
  Option, none, some, Bool, true, false, List, [], ◌∷◌, String, if◌then◌else◌, ◌&&◌, leb, ◌==◌,
  length,
}
use galactic_trading_firm.Prelude.Maps.{Map, lookup}
use galactic_trading_firm.F64.{F64, ◌⊕◌, ◌⊖◌, ◌<?◌, ◌≤?◌}
use galactic_trading_firm.Market.{
  Timescale, one_minute, five_minute, one_hour, one_day, one_month, timescale_eq,
}
use galactic_trading_firm.Scores.{TimescaleScores}
use galactic_trading_firm.Engine.Outputs.{score_of}
use galactic_trading_firm.Engine.Scoring.{get_timescale_score, fold_min, fold_max}

pub data WindowCondition (F : Type 0) : Type 0 where
  timescale_min : (timescale : Timescale) (min_score : F) → WindowCondition F
  timescale_max : (timescale : Timescale) (max_score : F) → WindowCondition F
  timescale_range : (timescale : Timescale) (min_score max_score : F) → WindowCondition F
  timescale_lead : (timescale : Timescale) (lead_by : F) → WindowCondition F
  timescale_spread_max : (max_spread : F) → WindowCondition F
  timescale_all_min : (min_score : F) → WindowCondition F
  indicator_min : (instance_id : String) (min_score : F) → WindowCondition F
  indicator_max : (instance_id : String) (max_score : F) → WindowCondition F
  indicator_range : (instance_id : String) (min_score max_score : F) → WindowCondition F
  composite_min : (min_score : F) → WindowCondition F
  timescale_all_max : (max_score : F) → WindowCondition F
  composite_max : (max_score : F) → WindowCondition F
  timescale_lag : (timescale : Timescale) (lag_by : F) → WindowCondition F

abbrev pub all_timescales : List Timescale
all_timescales = one_minute ∷ five_minute ∷ one_hour ∷ one_day ∷ one_month ∷ []

module _ {F : Type 0} where
  abbrev pub found_of : TimescaleScores F → List Timescale → List F
  found_of scores [] = []
  found_of scores (ts ∷ rest) = elim (get_timescale_score scores ts) [
    | none ↦ found_of scores rest
    | some s ↦ s ∷ found_of scores rest
  ]

  unfoldable pub available_ts_scores : TimescaleScores F → List F
  available_ts_scores scores = found_of scores all_timescales

  abbrev pub get_indicator_score : Option (Map (Option F)) → String → Option F
  get_indicator_score none id = none
  get_indicator_score (some m) id = score_of (lookup id m)

  -- `map(test).unwrap_or(false)`
  abbrev pub holds_of : Option F → (F → Bool) → Bool
  holds_of none test = false
  holds_of (some s) test = test s

  abbrev pub all_of : (F → Bool) → List F → Bool
  all_of test [] = true
  all_of test (s ∷ rest) = test s && all_of test rest

  abbrev pub some_and_all : (F → Bool) → List F → Bool
  some_and_all test [] = false
  some_and_all test (s ∷ rest) = all_of test (s ∷ rest)

  -- the loop over the other timescales; `beaten` is the test on which the code returns `false`
  abbrev pub unbeaten : (F → Bool) → TimescaleScores F → Timescale → List Timescale → Bool
  unbeaten beaten scores timescale [] = true
  unbeaten beaten scores timescale (ts ∷ rest) =
      if timescale_eq ts timescale
      then unbeaten beaten scores timescale rest
      else if holds_of (get_timescale_score scores ts) beaten
      then false
      else unbeaten beaten scores timescale rest

  -- the shape that the lead and the lag share
  abbrev pub against_others : Option F → (F → F → Bool) → TimescaleScores F → Timescale → Bool
  against_others none beaten scores timescale = false
  against_others (some own) beaten scores timescale =
      let count = length (available_ts_scores scores) in
      if leb count 1 then count == 1 else unbeaten (beaten own) scores timescale all_timescales

module _ {F : Type 0} ⦃f : F64 F⦄ where
  abbrev pub in_range : F → F → F → Bool
  in_range low high s = low ≤? s && s ≤? high

  abbrev pub spread_within : F → List F → Bool
  spread_within max_spread found =
      if leb (length found) 1
      then true
      else fold_max f.neg_infinity found ⊖ fold_min f.infinity found ≤? max_spread

  unfoldable pub evaluate_condition :
      WindowCondition F → TimescaleScores F → Option (Map (Option F)) → Bool
  evaluate_condition (timescale_min ts low) scores outputs =
      holds_of (get_timescale_score scores ts) (λ s. low ≤? s)
  evaluate_condition (timescale_max ts high) scores outputs =
      holds_of (get_timescale_score scores ts) (λ s. s ≤? high)
  evaluate_condition (timescale_range ts low high) scores outputs =
      holds_of (get_timescale_score scores ts) (in_range low high)
  evaluate_condition (timescale_lead ts lead_by) scores outputs =
      against_others (get_timescale_score scores ts) (λ own other. own <? other ⊕ lead_by) scores ts
  evaluate_condition (timescale_spread_max max_spread) scores outputs =
      spread_within max_spread (available_ts_scores scores)
  evaluate_condition (timescale_all_min low) scores outputs =
      some_and_all (λ s. low ≤? s) (available_ts_scores scores)
  evaluate_condition (indicator_min id low) scores outputs =
      holds_of (get_indicator_score outputs id) (λ s. low ≤? s)
  evaluate_condition (indicator_max id high) scores outputs =
      holds_of (get_indicator_score outputs id) (λ s. s ≤? high)
  evaluate_condition (indicator_range id low high) scores outputs =
      holds_of (get_indicator_score outputs id) (in_range low high)
  evaluate_condition (composite_min low) scores outputs = low ≤? scores.composite
  evaluate_condition (composite_max high) scores outputs = scores.composite ≤? high
  evaluate_condition (timescale_all_max high) scores outputs =
      some_and_all (λ s. s ≤? high) (available_ts_scores scores)
  evaluate_condition (timescale_lag ts lag_by) scores outputs =
      against_others (get_timescale_score scores ts) (λ own other. other ⊖ lag_by <? own) scores ts

  unfoldable pub all_conditions_met :
      List (WindowCondition F) → TimescaleScores F → Option (Map (Option F)) → Bool
  all_conditions_met [] scores outputs = true
  all_conditions_met (c ∷ rest) scores outputs =
      evaluate_condition c scores outputs && all_conditions_met rest scores outputs

-- the derived `Debug` of a timescale
abbrev pub debug_timescale : Timescale → String
debug_timescale one_minute = "OneMinute"
debug_timescale five_minute = "FiveMinute"
debug_timescale one_hour = "OneHour"
debug_timescale one_day = "OneDay"
debug_timescale one_month = "OneMonth"

abbrev pub concat : List String → String
concat [] = ""
concat (s ∷ rest) = append_str s (concat rest)

module _ {F : Type 0} (show : F → String) where
  abbrev pub fmt : Option F → String
  fmt none = "none"
  fmt (some x) = show x

  abbrev pub range_text : String → Option F → F → F → String
  range_text name value low high =
      concat (name ∷ " " ∷ fmt value ∷ " not in [" ∷ show low ∷ "," ∷ show high ∷ "]" ∷ [])

  abbrev pub bound_text : String → Option F → String → F → String
  bound_text name value sign bound = concat (name ∷ " " ∷ fmt value ∷ sign ∷ show bound ∷ [])

  unfoldable pub describe : WindowCondition F → TimescaleScores F → Option (Map (Option F)) → String
  describe (timescale_min ts low) scores outputs =
      bound_text (debug_timescale ts) (get_timescale_score scores ts) "<" low
  describe (timescale_max ts high) scores outputs =
      bound_text (debug_timescale ts) (get_timescale_score scores ts) ">" high
  describe (timescale_range ts low high) scores outputs =
      range_text (debug_timescale ts) (get_timescale_score scores ts) low high
  describe (timescale_lead ts lead_by) scores outputs =
      bound_text (debug_timescale ts) (get_timescale_score scores ts) " not leading by " lead_by
  describe (timescale_spread_max max_spread) scores outputs = append_str "spread>" (show max_spread)
  describe (timescale_all_min low) scores outputs = append_str "all<" (show low)
  describe (indicator_min id low) scores outputs =
      bound_text id (get_indicator_score outputs id) "<" low
  describe (indicator_max id high) scores outputs =
      bound_text id (get_indicator_score outputs id) ">" high
  describe (indicator_range id low high) scores outputs =
      range_text id (get_indicator_score outputs id) low high
  describe (composite_min low) scores outputs =
      bound_text "composite" (some scores.composite) "<" low
  describe (composite_max high) scores outputs =
      bound_text "composite" (some scores.composite) ">" high
  describe (timescale_all_max high) scores outputs = append_str "all>" (show high)
  describe (timescale_lag ts lag_by) scores outputs =
      bound_text (debug_timescale ts) (get_timescale_score scores ts) " not lagging by " lag_by

module _ {F : Type 0} ⦃f : F64 F⦄ (show : F → String) where
  unfoldable pub failing_conditions :
      List (WindowCondition F) → TimescaleScores F → Option (Map (Option F)) → List String
  failing_conditions [] scores outputs = []
  failing_conditions (c ∷ rest) scores outputs =
      if evaluate_condition c scores outputs
      then failing_conditions rest scores outputs
      else describe show c scores outputs ∷ failing_conditions rest scores outputs
