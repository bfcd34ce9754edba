-- ===== src/Examples/Skips.antt =====
-- An entry of the example engine that is skipped: one share costs more than the cash.
use galactic_trading_firm.Prelude.{◌≡◌, refl, some, [], ◌∷◌}
use galactic_trading_firm.Prelude.Maps.{lookup}
use galactic_trading_firm.Prelude.Int.{pos}
use galactic_trading_firm.F64.{lit}
use galactic_trading_firm.F64.Decimal.{Decimal, decimal_f64}
use galactic_trading_firm.Scores.{default_scores}
use galactic_trading_firm.Action.{long}
use galactic_trading_firm.Engine.State.{TradingEngine}
use galactic_trading_firm.Engine.Entries.{
  strip_prefix, apply_window_overrides, run_sizing, buy_shares, open_sized, try_enter,
}
use galactic_trading_firm.Engine.Entries.Skipped.{try_enter-not_entered}
use galactic_trading_firm.Examples.{engine, market_at}

abbrev overridden : TradingEngine Decimal
overridden = record engine {
  window_exit_overrides =
      (
        "morning",
        record {
          score_exit_threshold = some (lit 5);
          max_hold_ms = some (pos 600_000);
          force_exit_by_minutes = some 715;
        },
      )
      ∷ [];
}

try_enter-not_entered_example :
    (try_enter overridden (market_at 0 (lit 2000)) default_scores long (lit 1) "window:morning").0
    ≡ apply_window_overrides overridden "window:morning"
unfolding try_enter apply_window_overrides strip_prefix lookup run_sizing open_sized buy_shares
try_enter-not_entered_example =
    try_enter-not_entered overridden (market_at 0 (lit 2000)) default_scores long (lit 1)
      "window:morning" refl

-- the threshold of the window stays on
threshold_stays :
    (apply_window_overrides overridden "window:morning").active_score_exit_threshold ≡ lit 5
unfolding apply_window_overrides strip_prefix lookup
threshold_stays = refl
