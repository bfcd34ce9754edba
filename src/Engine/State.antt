-- ===== src/Engine/State.antt =====
-- crates/engine/src/tick_loop.rs: the fields of `TradingEngine`, its constructor and its setters.
-- A map of boxed indicators is a list of pairs in iteration order.
use galactic_trading_firm.Prelude.{ℕ, Option, none, Bool, false, List, [], String}
use galactic_trading_firm.Prelude.Int.{ℤ, pos}
use galactic_trading_firm.Prelude.Maps.{Map}
use galactic_trading_firm.F64.{F64, lit}
use galactic_trading_firm.Time.{DateTime, NaiveDate}
use galactic_trading_firm.Scores.{ScoringConfig}
use galactic_trading_firm.Action.{Action, Indicator, IndicatorConfig}
use galactic_trading_firm.Session.{SessionConfig}
use galactic_trading_firm.Engine.Position.{PositionManager, TradeRecord, new_manager}

pub record WindowExitOverrides (F : Type 0) : Type 0 where
  pub score_exit_threshold : Option F
  pub max_hold_ms : Option ℤ
  pub force_exit_by_minutes : Option ℕ

pub record TradingEngine (F : Type 0) : Type 0 where
  pub indicators : Map (Indicator F)
  pub indicator_configs : List (IndicatorConfig F)
  pub scoring_config : ScoringConfig F
  pub entry_actions : List (Action F)
  pub monitor_actions : List (Action F)
  pub exit_actions : List (Action F)
  pub sizing_actions : List (Action F)
  pub position_manager : PositionManager F
  pub ticker : String
  pub available_capital : F
  pub completed_trades : List (TradeRecord F)
  pub fill_price_override : Option F
  pub session_config : Option (SessionConfig F)
  pub current_session_date : Option NaiveDate
  pub session_start_time : Option DateTime
  pub last_exit_time : Option DateTime
  pub last_exit_time_before : Option DateTime
  pub entries_suppressed_until : Option DateTime
  pub cumulative_realized_pnl : F
  pub daily_loss_breaker_active : Bool
  pub initial_capital_snapshot : F
  pub max_hold_ms : ℤ
  pub default_max_hold_ms : ℤ
  pub window_exit_overrides : Map (WindowExitOverrides F)
  pub active_score_exit_threshold : F
  pub active_force_exit_minutes : Option ℕ
  pub monitor_stop_price : Option F

module _ {F : Type 0} ⦃f : F64 F⦄ where
  unfoldable pub new :
      Map (Indicator F)
      → List (IndicatorConfig F)
      → ScoringConfig F
      → (entry_actions monitor_actions exit_actions sizing_actions : List (Action F)) → String
      → F
      → Option (SessionConfig F)
      → TradingEngine F
  new indicators configs scoring entries monitors exits sizings ticker capital session = record {
    indicators = indicators;
    indicator_configs = configs;
    scoring_config = scoring;
    entry_actions = entries;
    monitor_actions = monitors;
    exit_actions = exits;
    sizing_actions = sizings;
    position_manager = new_manager;
    ticker = ticker;
    available_capital = capital;
    completed_trades = [];
    fill_price_override = none;
    session_config = session;
    current_session_date = none;
    session_start_time = none;
    last_exit_time = none;
    last_exit_time_before = none;
    entries_suppressed_until = none;
    cumulative_realized_pnl = lit 0;
    daily_loss_breaker_active = false;
    initial_capital_snapshot = capital;
    max_hold_ms = pos 2_700_000;
    default_max_hold_ms = pos 2_700_000;
    window_exit_overrides = [];
    active_score_exit_threshold = scoring.exit_threshold;
    active_force_exit_minutes = none;
    monitor_stop_price = none;
  }

module _ {F : Type 0} where
  unfoldable pub set_window_exit_overrides :
      TradingEngine F → Map (WindowExitOverrides F) → TradingEngine F
  set_window_exit_overrides e overrides = record e { window_exit_overrides = overrides }

  unfoldable pub set_fill_price_override : TradingEngine F → Option F → TradingEngine F
  set_fill_price_override e price = record e { fill_price_override = price }

  unfoldable pub set_max_hold_ms : TradingEngine F → ℤ → TradingEngine F
  set_max_hold_ms e ms = record e { max_hold_ms = ms; default_max_hold_ms = ms }
