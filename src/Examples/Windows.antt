-- ===== src/Examples/Windows.antt =====
-- An entry window and the session close of the example.
use galactic_trading_firm.Prelude.{◌≡◌, none, some, [], ◌∷◌, String, if◌then◌else◌}
use galactic_trading_firm.F64.{lit}
use galactic_trading_firm.F64.Decimal.{Decimal, decimal_f64}
use galactic_trading_firm.Market.{five_minute, one_hour}
use galactic_trading_firm.Scores.{TimescaleScores, default_scores}
use galactic_trading_firm.Action.{hold, exit, long, session_close}
use galactic_trading_firm.Session.Clock.{parse_hm_to_minutes}
use galactic_trading_firm.Engine.Exits.{is_due}
use galactic_trading_firm.Actions.Conditions.{timescale_min, composite_min, timescale_lead}
use galactic_trading_firm.Actions.Entry.{EntryWindowAction, evaluate_window, diagnose_window}
use galactic_trading_firm.Actions.Entry.Diagnosis.{Outcome, evaluate_window-Outcome}
use galactic_trading_firm.Actions.Exit.{evaluate_session_close}
use galactic_trading_firm.Actions.Exit.Cutoff.{evaluate_session_close-is_due}
use galactic_trading_firm.Examples.{clock, market_at, ten_shares}

abbrev morning : EntryWindowAction Decimal
morning = record {
  name = "morning";
  conditions =
      composite_min (lit 0)
      ∷ timescale_min five_minute (lit 3)
      ∷ timescale_lead one_hour (lit 1)
      ∷ [];
  direction = long;
  entry_after = some 585;
  entry_before = some 690;
}

abbrev morning_scores : TimescaleScores Decimal
morning_scores = record default_scores { five_minute = some (lit 2); one_hour = some (lit 4) }

abbrev show : Decimal → String
show x = "1.00"

evaluate_window-Outcome_example :
    let market = market_at 0 (lit 90) in
    Outcome morning market morning_scores
      (evaluate_window morning none market morning_scores)
      (diagnose_window show morning market morning_scores)
evaluate_window-Outcome_example =
    evaluate_window-Outcome show morning (market_at 0 (lit 90)) morning_scores

evaluate_session_close-is_due_example :
    let market = market_at 355 (lit 95) in
    evaluate_session_close "15:55" (some ten_shares) market
    ≡ (if is_due (parse_hm_to_minutes "15:55") market.timestamp then exit session_close else hold)
evaluate_session_close-is_due_example =
    evaluate_session_close-is_due "15:55" ten_shares (market_at 355 (lit 95))
