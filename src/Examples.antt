-- ===== src/Examples.antt =====
-- A small strategy to run the engine on: one action that always buys, a session until 15:55, a
-- daily loss limit, and prices with two decimals.
pub mod Ticks
pub mod Exits
pub mod Undone
pub mod Bars
pub mod Scores
pub mod Windows
pub mod Skips
pub mod Orders
pub mod Books
pub mod Sizes
use galactic_trading_firm.Prelude.{
  ℕ, ◌+◌, ◌*◌, Option, none, some, Bool, true, false, List, [], ◌∷◌, String,
}
use galactic_trading_firm.Prelude.Int.{pos}
use galactic_trading_firm.F64.{F64, lit}
use galactic_trading_firm.F64.Decimal.{Decimal, hundredths, decimal_f64}
use galactic_trading_firm.Time.{DateTime, Chrono, standard_time, nanos_per_minute}
use galactic_trading_firm.Market.{Candle, MarketState}
use galactic_trading_firm.Scores.{AggregationMethod, ScoringConfig, TimescaleScores, default_scores}
use galactic_trading_firm.Action.{
  Action, ActionPhase, ActionSignal, enter, modify_stop, returned, panicked, Caught, Position, long,
  short,
}
use galactic_trading_firm.Session.{SessionConfig}
use galactic_trading_firm.Engine.Position.{PositionManager, new_position}
use galactic_trading_firm.Engine.State.{TradingEngine}

instance abbrev pub clock : Chrono
clock = standard_time

-- 10:00 in US/Eastern on day 1 of the epoch, and minutes after it
abbrev pub ten_o_clock : ℕ → DateTime
ten_o_clock n = (24 * 60 + 15 * 60 + n) * nanos_per_minute

abbrev pub market_at : ℕ → Decimal → MarketState Decimal
market_at n price = record {
  last_price = price;
  bid = price;
  ask = price;
  timestamp = ten_o_clock n;
  candles = λ ts. none;
  spread = lit 0;
  session_vwap = price;
  session_volume = lit 0;
  position_context = none;
  session_progress = none;
  entries_blocked = false;
  total_deployed_capital = none;
  total_initial_capital = none;
  index_return = none;
  cross_ticker_correlation = none;
  cross = none;
}

abbrev pub scoring : ScoringConfig Decimal
scoring = record {
  timescale_weights = [];
  entry_threshold = lit 1;
  exit_threshold = decimal_f64.neg (lit 1);
  aggregation = AggregationMethod.min_score;
  hard_gate_timescales = [];
  agreement = none;
  dynamic_fusion = none;
  hard_gate_indicators = [];
  hourly_exit_override = none;
}

abbrev pub rules : SessionConfig Decimal
rules = record {
  no_new_entries_after = "15:30";
  force_exit_by = "15:55";
  avoid_first_minutes = 15;
  max_concurrent_positions = 1;
  max_capital_deployed_pct = lit 1;
  entry_cooldown_ms = pos 60_000;
  max_daily_loss_pct = some (hundredths (pos 2));
  max_position_pct = none;
  warmup_days = none;
}

abbrev pub action_of : ActionPhase → Caught (ActionSignal Decimal) → Action Decimal
action_of phase signal = record {
  name = "fixed";
  phase = phase;
  evaluate = λ position market scores. signal;
  diagnose = λ market scores. returned none;
}

abbrev pub buyer : Action Decimal
buyer = action_of ActionPhase.entry (returned (enter long (lit 1) "window:morning"))

abbrev pub crashing : Action Decimal
crashing = action_of ActionPhase.monitor panicked

abbrev pub stop_at : Decimal → Action Decimal
stop_at price = action_of ActionPhase.monitor (returned (modify_stop price))

abbrev pub engine : TradingEngine Decimal
engine = record {
  indicators = [];
  indicator_configs = [];
  scoring_config = scoring;
  entry_actions = buyer ∷ [];
  monitor_actions = crashing ∷ [];
  exit_actions = [];
  sizing_actions = [];
  position_manager = record { position = none };
  ticker = "XYZ";
  available_capital = lit 1000;
  completed_trades = [];
  fill_price_override = none;
  session_config = some rules;
  current_session_date = none;
  session_start_time = none;
  last_exit_time = none;
  last_exit_time_before = none;
  entries_suppressed_until = none;
  cumulative_realized_pnl = lit 0;
  daily_loss_breaker_active = false;
  initial_capital_snapshot = lit 1000;
  max_hold_ms = pos 2_700_000;
  default_max_hold_ms = pos 2_700_000;
  window_exit_overrides = [];
  active_score_exit_threshold = decimal_f64.neg (lit 1);
  active_force_exit_minutes = none;
  monitor_stop_price = none;
}

-- ten shares bought at 90
abbrev pub ten_shares : Position Decimal
ten_shares = new_position "XYZ" long (lit 90) (lit 10) (ten_o_clock 0)

abbrev pub holding : TradingEngine Decimal
holding = record engine {
  position_manager = record { position = some ten_shares };
  available_capital = lit 100;
}

-- the breaker tripped on day 1
abbrev pub halted : TradingEngine Decimal
halted = record engine { current_session_date = some 1; daily_loss_breaker_active = true }

abbrev pub candle_at : ℕ → ℕ → Candle Decimal
candle_at n price = record {
  timestamp = ten_o_clock n;
  «open» = lit price;
  high = lit (price + 1);
  low = lit price;
  close = lit price;
  volume = lit 100;
}
