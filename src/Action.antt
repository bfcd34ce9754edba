-- ===== src/Action.antt =====
-- crates/types/src/action.rs and indicator.rs: signals, positions, and the two plug-in traits. A
-- `dyn Action` or `dyn Indicator` is a record of its methods. A call that may panic returns
-- `Caught`: `panicked` is what `catch_unwind` turns into an error, or what unwinds where none is.
use galactic_trading_firm.Prelude.{ℕ, Option, Bool, String}
use galactic_trading_firm.Prelude.Int.{ℤ}
use galactic_trading_firm.Prelude.Maps.{Map}
use galactic_trading_firm.Time.{DateTime}
use galactic_trading_firm.Market.{MarketState, Timescale}
use galactic_trading_firm.Scores.{TimescaleScores}

pub data TradeDirection : Type 0 where
  long short : TradeDirection

pub data ExitReason : Type 0 where
  trailing_stop hard_stop take_profit max_hold_timeout session_close filter_alignment : ExitReason
  manual_override config_change score_exit daily_loss_limit breakeven_stop : ExitReason

pub data ActionSignal (F : Type 0) : Type 0 where
  hold : ActionSignal F
  enter : (direction : TradeDirection) (size_fraction : F) (reason : String) → ActionSignal F
  exit : (reason : ExitReason) → ActionSignal F
  modify_stop : (new_stop_price : F) → ActionSignal F
  scale_position : (delta_fraction : F) (reason : String) → ActionSignal F
  reject_entry : ActionSignal F

pub record Position (F : Type 0) : Type 0 where
  pub ticker : String
  pub direction : TradeDirection
  pub entry_price : F
  pub current_price : F
  pub size : F
  pub entry_time : DateTime
  pub unrealized_pnl : F
  pub unrealized_pnl_pct : F
  pub high_water_mark : F
  pub low_water_mark : F
  pub hold_duration_ms : ℤ

pub data Caught (A : Type 0) : Type 0 where
  returned : A → Caught A
  panicked : Caught A

pub data ActionPhase : Type 0 where
  entry monitor exit sizing : ActionPhase

pub record Action (F : Type 0) : Type 0 where
  pub name : String
  pub phase : ActionPhase
  pub evaluate : Option (Position F) → MarketState F → TimescaleScores F → Caught (ActionSignal F)
  pub diagnose : MarketState F → TimescaleScores F → Caught (Option String)

pub record IndicatorOutput (F : Type 0) : Type 0 where
  pub score : F
  pub raw_value : F
  pub metadata : Map F

pub record Indicator (F : Type 0) : Type 0 where
  pub name : String
  pub timescale : Timescale
  pub min_lookback : ℕ
  pub compute : MarketState F → Caught (Option (IndicatorOutput F))

-- Without the free-form parameters and the audit fields, which only the factories read.
pub record IndicatorConfig (F : Type 0) : Type 0 where
  pub indicator_type : String
  pub instance_id : String
  pub timescale : Timescale
  pub enabled : Bool
  pub weight : F
