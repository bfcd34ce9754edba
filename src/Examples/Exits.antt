-- ===== src/Examples/Exits.antt =====
-- Exits of the example engine.
use galactic_trading_firm.Prelude.{◌≡◌, refl, some, true, arith, List, [], ◌∷◌, inr}
use galactic_trading_firm.F64.{lit}
use galactic_trading_firm.F64.Decimal.{Decimal, decimal_f64, decimal-IsOrdered, decimal-IsSigned}
use galactic_trading_firm.Time.{DateTime, eastern_minutes}
use galactic_trading_firm.Scores.{TimescaleScores, default_scores}
use galactic_trading_firm.Action.{Action, Position, long, short, session_close}
use galactic_trading_firm.Session.Clock.{
  parse_hm_to_minutes, split, parse_u32, parse_digits, parse_hm,
}
use galactic_trading_firm.Session.Clock.Parsing.{
  parse_hm-eq-parse_hm_to_minutes, parse_hm_to_minutes_shown,
}
use galactic_trading_firm.Engine.Position.Marks.{AllBracketed, marked_by, marked_by-AllBracketed}
use galactic_trading_firm.Engine.Exits.{fill_price, manage_position, run_monitors, score_exit_stage}
use galactic_trading_firm.Engine.Exits.Booked.{IsBookedFor}
use galactic_trading_firm.Engine.Exits.Priority.{manage_position-is_due}
use galactic_trading_firm.Engine.Exits.Ratchet.{StillStopped, run_monitors-StillStopped}
use galactic_trading_firm.Engine.Exits.Mirror.{mirrored, score_exit_stage_mirror}
use galactic_trading_firm.Engine.Exits.Mirror
use galactic_trading_firm.Examples.{
  holding, rules, market_at, clock, ten_shares, crashing, stop_at, ten_o_clock,
}

-- 15:55 is 355 minutes after 10:00
manage_position-is_due_example :
    let market = market_at 355 (lit 95) in
    let (e', closed) = manage_position holding market default_scores in
    (closed ≡ true)
    × IsBookedFor session_close holding ten_shares (fill_price holding market) market.timestamp e'
unfolding eastern_minutes parse_hm_to_minutes split parse_u32 parse_digits
manage_position-is_due_example =
    manage_position-is_due holding ten_shares (market_at 355 (lit 95)) default_scores 955 refl
      (inr (refl, (rules, refl, refl))) (omega arith)

abbrev monitors : List (Action Decimal)
monitors = crashing ∷ stop_at (lit 85) ∷ stop_at (lit 88) ∷ stop_at Decimal.nan ∷ []

run_monitors-StillStopped_example : StillStopped decimal-IsOrdered long (lit 86) (
    run_monitors monitors
      (some ten_shares)
      (market_at 1 (lit 90))
      default_scores
      long
      (some (lit 86)))
run_monitors-StillStopped_example =
    run_monitors-StillStopped decimal-IsOrdered (some ten_shares) (market_at 1 (lit 90))
      default_scores monitors long (lit 86) refl

abbrev ten_short : Position Decimal
ten_short = record ten_shares { direction = short }

abbrev scores : TimescaleScores Decimal
scores = record default_scores { composite = lit 2; one_hour = some (lit 1) }

score_exit_stage_mirror_example :
    let market = market_at 1 (lit 95) in
    (score_exit_stage (Mirror.holding holding ten_short) market scores).1
    ≡ (score_exit_stage (Mirror.holding holding ten_shares) market (mirrored scores)).1
score_exit_stage_mirror_example =
    score_exit_stage_mirror decimal-IsSigned holding ten_short ten_shares (market_at 1 (lit 95))
      scores refl refl refl

abbrev prices : List (Decimal × DateTime)
prices = (lit 95, ten_o_clock 1) ∷ (lit 85, ten_o_clock 2) ∷ (lit 92, ten_o_clock 3) ∷ []

marked_by-AllBracketed_example :
    let q = marked_by ten_shares prices in
    (decimal_f64.le ten_shares.high_water_mark q.high_water_mark ≡ true)
    × (decimal_f64.le q.low_water_mark ten_shares.low_water_mark ≡ true)
    × AllBracketed q.low_water_mark q.high_water_mark prices
    × (q.entry_price ≡ ten_shares.entry_price)
    × (q.size ≡ ten_shares.size)
    × (q.entry_time ≡ ten_shares.entry_time)
marked_by-AllBracketed_example =
    marked_by-AllBracketed decimal-IsOrdered prices ten_shares refl refl (refl, (refl, (refl, tt)))

parse_hm-eq-parse_hm_to_minutes_example : parse_hm "15:55" ≡ parse_hm_to_minutes "15:55"
parse_hm-eq-parse_hm_to_minutes_example = parse_hm-eq-parse_hm_to_minutes "15:55"

parse_hm_to_minutes_shown_example : parse_hm_to_minutes "15:55" ≡ some 955
parse_hm_to_minutes_shown_example =
    parse_hm_to_minutes_shown "15:55" 15 55 (omega arith) (omega arith) refl
