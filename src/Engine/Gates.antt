-- ===== src/Engine/Gates.antt =====
-- crates/engine/src/tick_loop.rs: the per-day state and the gates on entries.
pub mod Opening
pub mod Suppression
use galactic_trading_firm.Prelude.{
  ℕ, Option, none, some, Bool, true, false, String, if◌then◌else◌, leb, ltb, ◌==◌, ◌&&◌,
}
use galactic_trading_firm.Prelude.Int.{pos, ltb_ℤ}
use galactic_trading_firm.F64.{F64, ◌⊕◌, ◌⊘◌, ◌<?◌, ◌≤?◌, lit}
use galactic_trading_firm.Time.{DateTime, NaiveDate, Chrono, eastern_minutes}
use galactic_trading_firm.Market.{MarketState}
use galactic_trading_firm.Session.{SessionConfig, no_new_entries_after_minutes}
use galactic_trading_firm.Engine.State.{TradingEngine}
use galactic_trading_firm.Engine.Position.{TradeRecord}

abbrev pub get_or {ℓ} : {A : Type ℓ} → Option A → A → A
get_or none d = d
get_or (some a) d = a

-- `self.current_session_date != Some(et_date)`
abbrev pub is_same_date : Option NaiveDate → NaiveDate → Bool
is_same_date none d = false
is_same_date (some d') d = d' == d

-- never shortens a suppression that is there
abbrev pub later_of : Option DateTime → DateTime → DateTime
later_of none until = until
later_of (some cur) until = if leb until cur then cur else until

abbrev pub is_before : DateTime → Option DateTime → Bool
is_before ts none = false
is_before ts (some until) = ltb ts until

abbrev pub is_late : ⦃c : Chrono⦄ → Option ℕ → DateTime → Bool
is_late none ts = false
is_late (some cutoff) ts = leb cutoff (eastern_minutes ts)

module _ {F : Type 0} ⦃f : F64 F⦄ ⦃c : Chrono⦄ where
  unfoldable pub start_new_session : TradingEngine F → NaiveDate → DateTime → TradingEngine F
  start_new_session e et_date tick_ts = record e {
    current_session_date = some et_date;
    session_start_time = some (get_or (c.eastern_open et_date) tick_ts);
    cumulative_realized_pnl = lit 0;
    daily_loss_breaker_active = false;
    last_exit_time = none;
    entries_suppressed_until = none;
  }

  -- the first steps of `on_tick`: a flat engine drops the monitor stop, and the first tick of a
  -- new date resets the day
  abbrev pub drop_stale_stop : TradingEngine F → TradingEngine F
  drop_stale_stop e = elim (e.position_manager.position) [
    | none ↦ record e { monitor_stop_price = none }
    | some p ↦ e
  ]

  abbrev pub roll_session : TradingEngine F → DateTime → TradingEngine F
  roll_session e ts =
      if is_same_date e.current_session_date (c.eastern_date ts)
      then e
      else start_new_session e (c.eastern_date ts) ts

module _ {F : Type 0} where
  unfoldable pub suppress_entries_until : TradingEngine F → DateTime → TradingEngine F
  suppress_entries_until e until = record e {
    entries_suppressed_until = some (later_of e.entries_suppressed_until until);
  }

  unfoldable pub carry_day_state : TradingEngine F → TradingEngine F → TradingEngine F
  carry_day_state e from = record e {
    current_session_date = from.current_session_date;
    session_start_time = from.session_start_time;
    cumulative_realized_pnl = from.cumulative_realized_pnl;
    daily_loss_breaker_active = from.daily_loss_breaker_active;
    last_exit_time = from.last_exit_time;
    last_exit_time_before = from.last_exit_time_before;
    entries_suppressed_until = from.entries_suppressed_until;
  }

-- Gates in the order of the code: the first that blocks gives the reason.
abbrev pub first_of : Bool → String → Option String → Option String
first_of true reason rest = some reason
first_of false reason rest = rest

module _ {F : Type 0} ⦃c : Chrono⦄ where
  -- minutes since the open, truncated towards zero, against `avoid_first_minutes`
  abbrev pub is_early : SessionConfig F → Option DateTime → DateTime → Bool
  is_early sc none ts = false
  is_early sc (some start) ts = ltb_ℤ (c.num_minutes ts start) (pos sc.avoid_first_minutes)

  abbrev pub is_cooling : SessionConfig F → Option DateTime → DateTime → Bool
  is_cooling sc none ts = false
  is_cooling sc (some last_exit) ts =
      ltb_ℤ (pos 0) sc.entry_cooldown_ms
      && ltb_ℤ (c.num_milliseconds ts last_exit) sc.entry_cooldown_ms

  abbrev pub session_block :
      Option (SessionConfig F) → Option DateTime → Option DateTime → DateTime → Option String
  session_block none start last_exit ts = none
  session_block (some sc) start last_exit ts =
      first_of (is_early sc start ts) "avoid_first_minutes" (
        first_of (is_late (no_new_entries_after_minutes sc) ts) "no_new_entries_after"
          (first_of (is_cooling sc last_exit ts) "entry_cooldown" none))

  unfoldable pub entry_block_reason : TradingEngine F → MarketState F → Option String
  entry_block_reason e market = first_of market.entries_blocked "entries_blocked" (
      first_of e.daily_loss_breaker_active "daily_loss_breaker" (
        first_of (is_before market.timestamp e.entries_suppressed_until) "order_failed_cooldown"
          (session_block e.session_config e.session_start_time e.last_exit_time market.timestamp)))

module _ {F : Type 0} ⦃f : F64 F⦄ where
  -- realized losses have reached the limit, as a fraction of the initial capital
  abbrev pub loss_reached : F → F → Option F → Bool
  loss_reached capital pnl none = false
  loss_reached capital pnl (some max_loss) = (lit 0 <? capital) && (max_loss ≤? f.neg pnl ⊘ capital)

  abbrev pub breaker_trips : Option (SessionConfig F) → F → F → Bool
  breaker_trips none capital pnl = false
  breaker_trips (some sc) capital pnl = loss_reached capital pnl sc.max_daily_loss_pct

  unfoldable pub record_exit : TradingEngine F → TradeRecord F → DateTime → TradingEngine F
  record_exit e trade timestamp =
      let pnl = e.cumulative_realized_pnl ⊕ trade.pnl in
      record e {
        last_exit_time_before = e.last_exit_time;
        last_exit_time = some timestamp;
        cumulative_realized_pnl = pnl;
        active_score_exit_threshold = e.scoring_config.exit_threshold;
        max_hold_ms = e.default_max_hold_ms;
        active_force_exit_minutes = none;
        daily_loss_breaker_active =
            if breaker_trips e.session_config e.initial_capital_snapshot pnl
            then true
            else e.daily_loss_breaker_active;
      }
