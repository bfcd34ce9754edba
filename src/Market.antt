-- ===== src/Market.antt =====
-- crates/types/src/market.rs: candles, timescales and the market snapshot of a tick.
-- `HashMap<Timescale, Vec<Candle>>` is a function to an optional list.
use galactic_trading_firm.Prelude.{Option, Bool, true, false, List}
use galactic_trading_firm.Prelude.Int.{ℤ}
use galactic_trading_firm.Time.{DateTime}

pub record Candle (F : Type 0) : Type 0 where
  pub timestamp : DateTime
  pub «open» : F
  pub high : F
  pub low : F
  pub close : F
  pub volume : F

pub data Timescale : Type 0 where
  one_minute five_minute one_hour one_day one_month : Timescale

-- The derived `PartialEq`.
abbrev pub timescale_eq : Timescale → Timescale → Bool
timescale_eq one_minute one_minute = true
timescale_eq five_minute five_minute = true
timescale_eq one_hour one_hour = true
timescale_eq one_day one_day = true
timescale_eq one_month one_month = true
timescale_eq _ _ = false

pub record PositionContext (F : Type 0) : Type 0 where
  pub direction : F
  pub unrealized_pnl_pct : F
  pub hold_duration_ms : ℤ
  pub max_hold_ms : ℤ

pub record CrossContext (F : Type 0) : Type 0 where
  pub index_session_ret : F
  pub index_ret_prior_close : Option F
  pub index_ret_5m : F
  pub index_ret_15m : F
  pub peers_red_frac : F
  pub peers_mean_session_ret : F

pub record MarketState (F : Type 0) : Type 0 where
  pub last_price : F
  pub bid : F
  pub ask : F
  pub timestamp : DateTime
  pub candles : Timescale → Option (List (Candle F))
  pub spread : F
  pub session_vwap : F
  pub session_volume : F
  pub position_context : Option (PositionContext F)
  pub session_progress : Option F
  pub entries_blocked : Bool
  pub total_deployed_capital : Option F
  pub total_initial_capital : Option F
  pub index_return : Option F
  pub cross_ticker_correlation : Option F
  pub cross : Option (CrossContext F)
