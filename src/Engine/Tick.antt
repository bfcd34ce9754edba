-- ===== src/Engine/Tick.antt =====
-- crates/engine/src/tick_loop.rs: `TradingEngine::on_tick`. The market is changed too (its position
-- context), so the call returns the engine, the market and the result. A panic of a near-miss
-- diagnosis, the last thing that a tick does, is not caught: the result is then `panicked`, and the
-- engine is as the unwinding leaves it.
pub mod Prepared
pub mod Events
pub mod Breaker
use Prim.Native.String.{◌++◌ as append_str}
use galactic_trading_firm.Prelude.{
  Option, none, some, Bool, true, false, List, [], ◌∷◌, String, if◌then◌else◌,
}
use galactic_trading_firm.F64.{F64, lit}
use galactic_trading_firm.Time.{Chrono}
use galactic_trading_firm.Market.{MarketState, PositionContext}
use galactic_trading_firm.Scores.{
  TimescaleScores, TickEvent, nothing, position_opened, position_closed, TickResult,
}
use galactic_trading_firm.Action.{
  Caught, returned, panicked, Action, Position, TradeDirection, long, short,
}
use galactic_trading_firm.Engine.Position.{update_on_tick, has_position}
use galactic_trading_firm.Engine.State.{TradingEngine}
use galactic_trading_firm.Engine.Outputs.{compute_outputs, compute_timescale_scores}
use galactic_trading_firm.Engine.Scoring.{compute_composite_with_indicators}
use galactic_trading_firm.Engine.Gates.{
  drop_stale_stop, roll_session, start_new_session, entry_block_reason,
}
use galactic_trading_firm.Engine.Exits.{manage_position}
use galactic_trading_firm.Engine.Entries.{EntryOutcome, gated, opened, seek_entry}

-- one text before the others; a panic is not caught here
abbrev pub noted : Caught (Option String) → Caught (List String) → Caught (List String)
noted panicked rest = panicked
noted (returned none) rest = rest
noted (returned (some text)) panicked = panicked
noted (returned (some text)) (returned rest) = returned (text ∷ rest)

-- the near-miss texts of the entry actions that give one
unfoldable pub diagnoses :
    {F : Type 0} → List (Action F) → MarketState F → TimescaleScores F → Caught (List String)
diagnoses [] market scores = returned []
diagnoses (a ∷ rest) market scores = noted (a.diagnose market scores) (diagnoses rest market scores)

-- `parts.join(" | ")`
unfoldable pub join : String → List String → String
join sep [] = ""
join sep (s ∷ []) = s
join sep (s ∷ t ∷ rest) = append_str s (append_str sep (join sep (t ∷ rest)))

abbrev pub near_miss_of : List String → Option String
near_miss_of [] = none
near_miss_of (s ∷ rest) = some (join " | " (s ∷ rest))

module _ {F : Type 0} ⦃f : F64 F⦄ where
  abbrev pub direction_sign : TradeDirection → F
  direction_sign long = lit 1
  direction_sign short = f.neg (lit 1)

  abbrev pub context_of : TradingEngine F → Option (Position F) → Option (PositionContext F)
  context_of e none = none
  context_of e (some p) = some (record {
    direction = direction_sign p.direction;
    unrealized_pnl_pct = p.unrealized_pnl_pct;
    hold_duration_ms = p.hold_duration_ms;
    max_hold_ms = e.max_hold_ms;
  })

  unfoldable pub inject_context : TradingEngine F → MarketState F → MarketState F
  inject_context e market = record market {
    position_context = context_of e e.position_manager.position;
  }

  -- steps 2 to 4: indicator outputs, timescale scores, composite
  unfoldable pub score_market : TradingEngine F → MarketState F → TimescaleScores F
  score_market e market =
      let outputs = compute_outputs e.indicators market [] in
      let scores = compute_timescale_scores outputs e.indicator_configs in
      record (compute_composite_with_indicators scores e.scoring_config (some outputs)) {
        indicator_scores = some outputs;
      }

abbrev pub closed_event : Bool → TickEvent
closed_event true = position_closed
closed_event false = nothing

abbrev pub plain_result : {F : Type 0} → TimescaleScores F → TickEvent → TickResult F
plain_result scores event = record {
  scores = scores;
  event = event;
  entry_reason = "";
  entry_blocked_by = none;
  near_miss = none;
}

module _ {F : Type 0} where
  abbrev pub missed : TimescaleScores F → Caught (List String) → Caught (TickResult F)
  missed scores panicked = panicked
  missed scores (returned texts) =
      returned (record (plain_result scores nothing) { near_miss = near_miss_of texts })

  abbrev pub entry_result :
      EntryOutcome → List (Action F) → MarketState F → TimescaleScores F → Caught (TickResult F)
  entry_result (opened reason) actions market scores =
      returned (record (plain_result scores position_opened) { entry_reason = reason })
  entry_result (gated gate) actions market scores =
      returned (record (plain_result scores nothing) { entry_blocked_by = some gate })
  entry_result _ actions market scores = missed scores (diagnoses actions market scores)

module _ {F : Type 0} ⦃f : F64 F⦄ ⦃c : Chrono⦄ where
  unfoldable pub tick_holding :
      TradingEngine F → MarketState F → TimescaleScores F → TradingEngine F × Caught (TickResult F)
  tick_holding e market scores =
      let (e', closed) = manage_position e market scores in
      (e', returned (plain_result scores (closed_event closed)))

  abbrev pub seek_unless :
      Option String
      → TradingEngine F
      → MarketState F
      → TimescaleScores F
      → TradingEngine F × Caught (TickResult F)
  seek_unless (some reason) e market scores =
      (e, returned (record (plain_result scores nothing) { entry_blocked_by = some reason }))
  seek_unless none e market scores =
      let (e', outcome) = seek_entry e.entry_actions e market scores in
      (e', entry_result outcome e.entry_actions market scores)

  unfoldable pub tick_flat :
      TradingEngine F → MarketState F → TimescaleScores F → TradingEngine F × Caught (TickResult F)
  tick_flat e market scores = seek_unless (entry_block_reason e market) e market scores

  -- what precedes the actions: the stale stop, the session roll and the position's mark
  unfoldable pub prepare : TradingEngine F → MarketState F → TradingEngine F
  prepare e market = roll_session (drop_stale_stop e) market.timestamp

  unfoldable pub mark_position : TradingEngine F → MarketState F → TradingEngine F
  mark_position e market = record e {
    position_manager = update_on_tick e.position_manager market.last_price market.timestamp;
  }

  unfoldable pub act :
      TradingEngine F → MarketState F → TimescaleScores F → TradingEngine F × Caught (TickResult F)
  act e market scores =
      if has_position e.position_manager
      then tick_holding e market scores
      else tick_flat e market scores

  unfoldable pub on_tick :
      TradingEngine F → MarketState F → TradingEngine F × MarketState F × Caught (TickResult F)
  on_tick e market =
      let ready = prepare e market in
      let seen = inject_context ready market in
      let scores = score_market ready seen in
      let (e', result) = act (mark_position ready seen) seen scores in (e', seen, result)
