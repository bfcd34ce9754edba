-- ===== src/Examples/Sizes.antt =====
-- Tiers of sizing and of the timeout, and volatility sizing, on two-decimal numbers.
use galactic_trading_firm.Prelude.{ℕ, ◌≡◌, refl, none, some, true, false, List, [], ◌∷◌, String}
use galactic_trading_firm.Prelude.Int.{pos}
use galactic_trading_firm.F64.{lit}
use galactic_trading_firm.F64.Decimal.{Decimal, decimal_f64, decimal-IsOrdered}
use galactic_trading_firm.Market.{Candle, MarketState, five_minute}
use galactic_trading_firm.Scores.{default_scores}
use galactic_trading_firm.Action.{Action, entry, sizing, hold, returned}
use galactic_trading_firm.Prelude.Maps.{Map}
use galactic_trading_firm.Actions.Build.{ActionConfig, build_actions}
use galactic_trading_firm.Actions.Build.Ranked.{IsBuilt, build_actions-IsBuilt}
use galactic_trading_firm.Actions.Atr.{Ta, compute_atr}
use galactic_trading_firm.Actions.Sizing.{Tier, new_tiered, multiplier_for}
use galactic_trading_firm.Actions.Sizing.Tiers.{IsMultiplier, multiplier_for-IsMultiplier}
use galactic_trading_firm.Actions.Sizing.Volatility.{
  VolatilityScaledSizing, IsSized, evaluate_volatility_scaled, evaluate_volatility_scaled-IsSized,
}
use galactic_trading_firm.Actions.Exit.Timeout.{
  ProfitTier, MaxHoldTimeout, IsExtension, with_tiers, tier_extension, tier_extension-IsExtension,
}
use galactic_trading_firm.Examples.{market_at}

abbrev tiers : List (Tier Decimal)
tiers = record { min = lit 3; mult = lit 1 } ∷ record { min = lit 7; mult = lit 2 } ∷ []

multiplier_for-IsMultiplier_example :
    IsMultiplier tiers
      (lit 8)
      (lit 0)
      (multiplier_for (new_tiered "vpin_1m" (lit 1) tiers (lit 0)) (some (lit 8)))
multiplier_for-IsMultiplier_example =
    multiplier_for-IsMultiplier decimal-IsOrdered "vpin_1m" (lit 1) (lit 8) (lit 0) tiers
      (refl, (refl, tt))

abbrev profit_tiers : List (ProfitTier Decimal)
profit_tiers =
    record { pnl_pct = lit 2; extension_ms = pos 900 }
    ∷ record { pnl_pct = lit 1; extension_ms = pos 300 }
    ∷ []

tier_extension-IsExtension_example :
    (m : MaxHoldTimeout Decimal) × (with_tiers (pos 3600) (pos 60) (pos 600) (lit 0) profit_tiers
      ≡ returned m)
    × IsExtension profit_tiers (lit 2) (tier_extension m (lit 2))
tier_extension-IsExtension_example =
    tier_extension-IsExtension decimal-IsOrdered (pos 3600) (pos 60) (pos 600) (lit 0) (lit 2)
      profit_tiers (refl, (refl, tt))

-- the range of the last bar in place of the average
abbrev last_range : Ta Decimal
last_range = record {
  DataItem = Decimal × Decimal;
  AverageTrueRange = ℕ;
  build = λ first high low close volume. some (high, low);
  «new» = λ n. some n;
  next = λ n item. let (high, low) = item in (n, decimal_f64.sub high low);
}

abbrev bar : Candle Decimal
bar = record {
  timestamp = 0;
  «open» = lit 90;
  high = lit 94;
  low = lit 90;
  close = lit 93;
  volume = lit 100;
}

abbrev market : MarketState Decimal
market = record (market_at 1 (lit 93)) { candles = λ timescale. some (bar ∷ bar ∷ []) }

abbrev by_volatility : VolatilityScaledSizing Decimal
by_volatility = record {
  base_fraction = lit 6;
  atr_period = 1;
  baseline_atr = lit 2;
  max_fraction = lit 5;
  min_fraction = lit 1;
  timescale = five_minute;
}

abbrev show : ℕ → Decimal → String
show n x = "3.00"

evaluate_volatility_scaled-IsSized_example :
    IsSized by_volatility none
      (compute_atr last_range 1 five_minute market)
      default_scores.composite
      (evaluate_volatility_scaled last_range show by_volatility none market default_scores)
evaluate_volatility_scaled-IsSized_example =
    evaluate_volatility_scaled-IsSized decimal-IsOrdered last_range show by_volatility none market
      default_scores refl

abbrev holding_action : ActionConfig Unit → Action Decimal
holding_action c = record {
  name = c.instance_id;
  phase = c.phase;
  evaluate = λ position state scores. returned hold;
  diagnose = λ state scores. returned none;
}

abbrev registry : Map (ActionConfig Unit → Action Decimal)
registry = ("hold", holding_action) ∷ []

abbrev second : ActionConfig Unit
second = record {
  action_type = "hold";
  instance_id = "second";
  phase = entry;
  enabled = true;
  priority = pos 2;
  params = tt;
}

abbrev configs : List (ActionConfig Unit)
configs =
    second
    ∷ record second { instance_id = "first"; priority = pos 1 }
    ∷ record second { action_type = "missing"; enabled = false }
    ∷ record second { instance_id = "size"; phase = sizing }
    ∷ []

build_actions-IsBuilt_example : IsBuilt registry entry configs (build_actions registry configs)
build_actions-IsBuilt_example = build_actions-IsBuilt registry entry configs
