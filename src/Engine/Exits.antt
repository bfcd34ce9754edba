-- ===== src/Engine/Exits.antt =====
-- crates/engine/src/tick_loop.rs: what `on_tick` does with an open position. Each stage returns the
-- engine and whether the tick ends there with the position closed.
pub mod Booked
pub mod Closing
pub mod Priority
pub mod Ratchet
pub mod Mirror
use galactic_trading_firm.Prelude.{
  ℕ, Option, none, some, Bool, true, false, List, [], ◌∷◌, ◌++◌, if◌then◌else◌, leb, ◌&&◌, not,
}
use galactic_trading_firm.Prelude.Int.{ℤ, ltb_ℤ}
use galactic_trading_firm.F64.{F64, ◌⊕◌, ◌⊗◌, ◌<?◌, ◌≤?◌, lit, max, min}
use galactic_trading_firm.Time.{DateTime, Chrono, eastern_minutes}
use galactic_trading_firm.Market.{MarketState}
use galactic_trading_firm.Scores.{TimescaleScores}
use galactic_trading_firm.Action.{
  Action, ActionSignal, hold, exit, modify_stop, Caught, returned, panicked, Position,
  TradeDirection, long, short, ExitReason, max_hold_timeout, session_close, score_exit,
  breakeven_stop,
}
use galactic_trading_firm.Session.{SessionConfig, force_exit_by_minutes}
use galactic_trading_firm.Engine.Position.{TradeRecord, close_position}
use galactic_trading_firm.Engine.State.{TradingEngine}
use galactic_trading_firm.Engine.Gates.{record_exit, get_or}

-- A panicking action is treated as `Hold`.
abbrev pub guarded : {F : Type 0} → Caught (ActionSignal F) → ActionSignal F
guarded (returned signal) = signal
guarded panicked = hold

abbrev pub evaluate_guarded :
    {F : Type 0}
    → Action F
    → Option (Position F)
    → MarketState F
    → TimescaleScores F
    → ActionSignal F
evaluate_guarded action position market scores = guarded (action.evaluate position market scores)

-- `ExitReason::MaxHoldTimeout`
abbrev pub is_max_hold : ExitReason → Bool
is_max_hold max_hold_timeout = true
is_max_hold _ = false

abbrev pub eq_ℤ : ℤ → ℤ → Bool
eq_ℤ a b = not (ltb_ℤ a b) && not (ltb_ℤ b a)

-- An early return: the rest runs only if the stage before it did not close the position.
abbrev pub unless_closed : {E : Type 0} → E × Bool → (E → E × Bool) → E × Bool
unless_closed (e, true) rest = (e, true)
unless_closed (e, false) rest = rest e

abbrev pub or_else {ℓ} : {A : Type ℓ} → Option A → Option A → Option A
or_else (some a) b = some a
or_else none b = b

abbrev pub direction_or_long : {F : Type 0} → Option (Position F) → TradeDirection
direction_or_long none = long
direction_or_long (some p) = p.direction

abbrev pub is_due : ⦃c : Chrono⦄ → Option ℕ → DateTime → Bool
is_due none ts = false
is_due (some cutoff) ts = leb cutoff (eastern_minutes ts)

module _ {F : Type 0} ⦃f : F64 F⦄ where
  -- the bookkeeping that follows every close
  unfoldable pub book_exit : TradingEngine F → TradeRecord F → DateTime → TradingEngine F
  book_exit e trade ts =
      let paid = record e {
        available_capital = e.available_capital ⊕ (trade.size ⊗ trade.entry_price ⊕ trade.pnl);
      } in
      let recorded = record_exit paid trade ts in
      record recorded { completed_trades = recorded.completed_trades ++ (trade ∷ []) }

  abbrev pub fill_price : TradingEngine F → MarketState F → F
  fill_price e market = get_or e.fill_price_override market.last_price

  abbrev pub book_if : TradingEngine F → Option (TradeRecord F) → DateTime → TradingEngine F × Bool
  book_if e none ts = (e, false)
  book_if e (some trade) ts = (book_exit e trade ts, true)

module _ {F : Type 0} ⦃f : F64 F⦄ ⦃c : Chrono⦄ where
  -- close at a price for a reason; `false` if there was nothing to close
  unfoldable pub close_and_book :
      TradingEngine F → F → DateTime → ExitReason → TradingEngine F × Bool
  close_and_book e price ts reason =
      let (manager, trade) = close_position e.position_manager price ts reason in
      book_if (record e { position_manager = manager }) trade ts

  -- the cutoff of the entry window, and else that of the session
  abbrev pub session_cutoff : Option (SessionConfig F) → Option ℕ
  session_cutoff none = none
  session_cutoff (some sc) = force_exit_by_minutes sc

  abbrev pub exit_cutoff : TradingEngine F → Option ℕ
  exit_cutoff e = or_else e.active_force_exit_minutes (session_cutoff e.session_config)

  unfoldable pub clock_exit : TradingEngine F → MarketState F → TradingEngine F × Bool
  clock_exit e market =
      if is_due (exit_cutoff e) market.timestamp
      then close_and_book e (fill_price e market) market.timestamp session_close
      else (e, false)

  abbrev pub score_exit_hit : TradeDirection → F → F → Bool
  score_exit_hit long composite threshold = composite ≤? threshold
  score_exit_hit short composite threshold = f.neg threshold ≤? composite

  abbrev pub trend_ok : TradeDirection → F → F → Bool
  trend_ok long h thresh = thresh ≤? h
  trend_ok short h thresh = h ≤? f.neg thresh

  abbrev pub is_profitable : Option (Position F) → Bool
  is_profitable none = false
  is_profitable (some p) = lit 0 <? p.unrealized_pnl

  abbrev pub hourly_override : Option F → TradeDirection → Option F → Option (Position F) → Bool
  hourly_override none direction one_hour position = false
  hourly_override (some thresh) direction one_hour position =
      trend_ok direction (get_or one_hour (lit 0)) thresh && is_profitable position

  unfoldable pub score_exit_stage :
      TradingEngine F → MarketState F → TimescaleScores F → TradingEngine F × Bool
  score_exit_stage e market scores =
      let position = e.position_manager.position in
      let direction = direction_or_long position in
      if score_exit_hit direction scores.composite e.active_score_exit_threshold
        && not (
            hourly_override e.scoring_config.hourly_exit_override direction scores.one_hour
              position)
      then close_and_book e (fill_price e market) market.timestamp score_exit
      else (e, false)

  -- a stop only ever tightens
  abbrev pub tightened : Option F → TradeDirection → F → F
  tightened none direction stop = stop
  tightened (some cur) long stop = max cur stop
  tightened (some cur) short stop = min cur stop

  abbrev pub apply_monitor : ActionSignal F → TradeDirection → Option F → Option F
  apply_monitor (modify_stop stop) direction cur = some (tightened cur direction stop)
  apply_monitor _ direction cur = cur

  -- the loop over the monitor actions, on the stop price
  unfoldable pub run_monitors :
      List (Action F)
      → Option (Position F)
      → MarketState F
      → TimescaleScores F
      → TradeDirection
      → Option F
      → Option F
  run_monitors [] position market scores direction stop = stop
  run_monitors (a ∷ rest_actions) position market scores direction stop =
      run_monitors rest_actions position market scores direction
        (apply_monitor (evaluate_guarded a position market scores) direction stop)

  abbrev pub stop_hit : TradeDirection → F → F → Bool
  stop_hit long price stop = price ≤? stop
  stop_hit short price stop = stop ≤? price

  abbrev pub is_stopped : Option F → TradeDirection → F → Bool
  is_stopped none direction price = false
  is_stopped (some stop) direction price = stop_hit direction price stop

  unfoldable pub monitor_stage :
      TradingEngine F → MarketState F → TimescaleScores F → TradingEngine F × Bool
  monitor_stage e market scores =
      let position = e.position_manager.position in
      let direction = direction_or_long position in
      let stop =
        run_monitors e.monitor_actions position market scores direction e.monitor_stop_price in
      let moved = record e { monitor_stop_price = stop } in
      if is_stopped stop direction market.last_price
      then close_and_book moved (fill_price e market) market.timestamp breakeven_stop
      else (moved, false)

  abbrev pub is_held_less : Option (Position F) → ℤ → Bool
  is_held_less none limit = false
  is_held_less (some p) limit = ltb_ℤ p.hold_duration_ms limit

  -- a `MaxHoldTimeout` is not honoured yet, under a window's own limit
  abbrev pub is_deferred : TradingEngine F → ExitReason → Bool
  is_deferred e reason =
      is_max_hold reason
      && not (eq_ℤ e.max_hold_ms e.default_max_hold_ms)
      && is_held_less e.position_manager.position e.max_hold_ms

  -- an exit signal, at a call of the rest of the loop
  abbrev pub on_exit_signal :
      ActionSignal F
      → TradingEngine F
      → MarketState F
      → TradingEngine F × Bool
      → TradingEngine F × Bool
  on_exit_signal (exit reason) e market rest =
      if is_deferred e reason
      then rest
      else let (e', closed) = close_and_book e (fill_price e market) market.timestamp reason in
        (e', true)
  on_exit_signal _ e market rest = rest

  unfoldable pub action_exits :
      List (Action F) → TradingEngine F → MarketState F → TimescaleScores F → TradingEngine F × Bool
  action_exits [] e market scores = (e, false)
  action_exits (a ∷ rest_actions) e market scores =
      let rest = action_exits rest_actions e market scores in
      on_exit_signal (evaluate_guarded a e.position_manager.position market scores) e market rest

  unfoldable pub manage_position :
      TradingEngine F → MarketState F → TimescaleScores F → TradingEngine F × Bool
  manage_position e market scores = unless_closed (clock_exit e market) λ e1.
      unless_closed (score_exit_stage e1 market scores) λ e2.
        unless_closed (monitor_stage e2 market scores)
          λ e3. action_exits e3.exit_actions e3 market scores
