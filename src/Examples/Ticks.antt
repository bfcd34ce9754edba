-- ===== src/Examples/Ticks.antt =====
-- Ticks of the example engine.
use galactic_trading_firm.Prelude.{◌≡◌, refl, ◌↔◌, Option, none, some, false, List, [], ◌∷◌, ◌||◌}
use galactic_trading_firm.F64.{lit}
use galactic_trading_firm.F64.Decimal.{Decimal, decimal_f64}
use galactic_trading_firm.Market.{MarketState}
use galactic_trading_firm.Scores.{TickEvent, position_opened, TickResult}
use galactic_trading_firm.Action.{Caught, returned, panicked}
use galactic_trading_firm.Engine.Gates.{is_before, start_new_session, entry_block_reason}
use galactic_trading_firm.Engine.Gates.Suppression.{
  before_any, suppress_all, suppress_all-is_before,
}
use galactic_trading_firm.Engine.Gates.Opening.{
  SuppressionOver, SessionOpen, entry_block_reason-none,
}
use galactic_trading_firm.Engine.Tick.{
  on_tick, prepare, inject_context, score_market, mark_position, act, tick_flat,
}
use galactic_trading_firm.Prelude.Maps.{lookup}
use galactic_trading_firm.Time.{eastern_minutes}
use galactic_trading_firm.Session.Clock.{parse_hm_to_minutes, split, parse_u32, parse_digits}
use galactic_trading_firm.Engine.Position.{update_on_tick, open_position}
use galactic_trading_firm.Engine.Outputs.{
  compute_outputs, compute_timescale_scores, pairs_of, aggregate_timescale_scores,
}
use galactic_trading_firm.Engine.Scoring.{compute_composite_with_indicators, min_score, available}
use galactic_trading_firm.Engine.Entries.{
  seek_entry, try_enter, apply_window_overrides, strip_prefix, run_sizing, open_sized, buy_shares,
}
use galactic_trading_firm.Engine.Tick.Breaker.{IsHalted, NoneOpened, run_ticks, run_ticks-IsHalted}
use galactic_trading_firm.Examples.{engine, halted, market_at, clock, ten_o_clock}

abbrev event_of : Caught (TickResult Decimal) → Option TickEvent
event_of panicked = none
event_of (returned r) = some r.event

-- the first tick opens a position
first_tick_opens : event_of (on_tick engine (market_at 0 (lit 90))).2 ≡ some position_opened
unfolding on_tick prepare start_new_session inject_context score_market compute_outputs
    compute_timescale_scores pairs_of aggregate_timescale_scores compute_composite_with_indicators
    mark_position update_on_tick act tick_flat entry_block_reason parse_hm_to_minutes split
    parse_u32 parse_digits eastern_minutes seek_entry try_enter apply_window_overrides strip_prefix
    lookup run_sizing open_sized buy_shares open_position min_score available
first_tick_opens = refl

entry_block_reason-none_example :
    let market = market_at 0 (lit 90) in
    (entry_block_reason engine market ≡ none) ↔ (
      (market.entries_blocked ≡ false)
      × (engine.daily_loss_breaker_active ≡ false)
      × SuppressionOver engine.entries_suppressed_until market.timestamp
      × SessionOpen engine.session_config engine.session_start_time engine.last_exit_time
          market.timestamp)
entry_block_reason-none_example = entry_block_reason-none engine (market_at 0 (lit 90))

abbrev two_ticks : List (MarketState Decimal)
two_ticks = market_at 0 (lit 90) ∷ market_at 1 (lit 80) ∷ []

run_ticks-IsHalted_example :
    let (last, events) = run_ticks halted two_ticks in IsHalted 1 last × NoneOpened events
run_ticks-IsHalted_example = run_ticks-IsHalted 1 halted two_ticks (refl, refl) (refl, (refl, tt))

suppress_all-is_before_example :
    is_before
      (ten_o_clock 4)
      (suppress_all engine (ten_o_clock 5 ∷ ten_o_clock 3 ∷ [])).entries_suppressed_until
    ≡ (is_before (ten_o_clock 4) engine.entries_suppressed_until
        || before_any (ten_o_clock 4) (ten_o_clock 5 ∷ ten_o_clock 3 ∷ []))
suppress_all-is_before_example =
    suppress_all-is_before (ten_o_clock 5 ∷ ten_o_clock 3 ∷ []) engine (ten_o_clock 4)
